-- ===== src/Closeout/Shape.antt =====
-- What `_validate_closeout_association` of src/ei/journal.py grants of a record by its status.
use portable_external_intell.Prelude.{
  >>-eq-ok, Bool, Option, String, arith, false, is_nil, is_some, none, not, ok, refl, some, true,
  ◌&&◌, ◌||◌, ◌≡◌,
}
use portable_external_intell.Closeout.Record.{
  ApplicationRef, Association, Decision, answer_no, answer_yes, applied, committed, prepared,
  preparing, said, status_eq,
}
use portable_external_intell.Closeout.Schema.{
  applied_wrong, committed_yes_wrong, half_application, no_with_application, prepared_digest_wrong,
  prepared_wrong, preparing_wrong, refuse, status_rules,
}

refuse-eq-ok : (wrong : Bool) (field : String) → refuse wrong field ≡ ok tt → wrong ≡ false
refuse-eq-ok true field h = cc
refuse-eq-ok false field h = refl

pub is_none : {A : Type 0} (o : Option A) → is_some o ≡ false → o ≡ none
is_none none h = refl
is_none (some a) h = cc

pub is_there : {A : Type 0} (o : Option A) → is_some o ≡ true → (a : A) × (o ≡ some a)
is_there none h = cc
is_there (some a) h = (a, refl)

pub said-yes : (d : Option Decision) → said answer_yes d ≡ true → d ≡ some answer_yes
said-yes none h = cc
said-yes (some answer_yes) h = refl
said-yes (some answer_no) h = cc

-- Nothing of an answer.
pub record Blank (a : Association) : Type 0 where
  pub decision : a.decision ≡ none
  pub spool_ref : a.spool_ref ≡ none
  pub candidate_hash : a.candidate_hash ≡ none
  pub application_ref : a.application_ref ≡ none
  pub witness : is_nil a.witness ≡ true
  pub result_digest : a.result_digest ≡ none

-- The checks of the status that succeeded, one by one.
pub record Ruled (a : Association) : Type 0 where
  pub preparing_ok : (status_eq a.status preparing && preparing_wrong a) ≡ false
  pub prepared_ok : (status_eq a.status prepared && prepared_wrong a) ≡ false
  pub whole : (status_eq a.status prepared && half_application a) ≡ false
  pub digest : (status_eq a.status prepared && prepared_digest_wrong a) ≡ false
  pub applied_ok : (status_eq a.status applied && applied_wrong a) ≡ false
  pub committed_ok :
      (status_eq a.status committed && (not (is_some a.decision) || not (is_some a.result_digest)))
      ≡ false
  pub committed_yes : (status_eq a.status committed && committed_yes_wrong a) ≡ false
  pub no_ok : no_with_application a ≡ false

pub rules-Ruled : (a : Association) → status_rules a ≡ ok tt → Ruled a
unfolding status_rules
rules-Ruled a h =
    let (k9, h10) = >>-eq-ok _ _ h in
    let (k8, h9) = >>-eq-ok _ _ k9 in
    let (k7, h8) = >>-eq-ok _ _ k8 in
    let (k6, h7) = >>-eq-ok _ _ k7 in
    let (k5, h6) = >>-eq-ok _ _ k6 in
    let (k4, h5) = >>-eq-ok _ _ k5 in
    let (k3, h4) = >>-eq-ok _ _ k4 in
    let (k2, h3) = >>-eq-ok _ _ k3 in
    let (h1, h2) = >>-eq-ok _ _ k2 in
    record {
      preparing_ok = refuse-eq-ok _ _ h1;
      prepared_ok = refuse-eq-ok _ _ h2;
      whole = refuse-eq-ok _ _ h3;
      digest = refuse-eq-ok _ _ h5;
      applied_ok = refuse-eq-ok _ _ h6;
      committed_ok = refuse-eq-ok _ _ h7;
      committed_yes = refuse-eq-ok _ _ h8;
      no_ok = refuse-eq-ok _ _ h10;
    }

right-Blank : (a : Association) → preparing_wrong a ≡ false → Blank a
right-Blank a h = record {
  decision = is_none a.decision (ground (arith, h));
  spool_ref = is_none a.spool_ref (ground (arith, h));
  candidate_hash = is_none a.candidate_hash (ground (arith, h));
  application_ref = is_none a.application_ref (ground (arith, h));
  witness = ground (arith, h);
  result_digest = is_none a.result_digest (ground (arith, h));
}

pub preparing-Blank : (a : Association) → Ruled a → a.status ≡ preparing → Blank a
preparing-Blank a r s = right-Blank a (rw s at r.preparing_ok)

-- A prepared record has an answer, its candidate, and a digest of the result just where the answer is no.
pub prepared-no_digest :
    (a : Association)
    → Ruled a
    → a.status ≡ prepared
    → a.decision ≡ some answer_yes
    → a.result_digest ≡ none
prepared-no_digest a r s d =
    let h = rw (s, d) at r.digest in is_none a.result_digest (ground (arith, h))

pub applied-answer :
    (a : Association)
    → Ruled a
    → a.status ≡ applied
    → (a.decision ≡ some answer_yes)
      × ((c : String) × (a.candidate_hash ≡ some c))
      × ((p : ApplicationRef) × (a.application_ref ≡ some p))
applied-answer a r s =
    let h = rw s at r.applied_ok in
    (
      said-yes a.decision (ground (arith, h)),
      is_there a.candidate_hash (ground (arith, h)),
      is_there a.application_ref (ground (arith, h)),
    )
