-- ===== src/Closeout/Follows.antt =====
-- How the record of a closeout association may change, in the stages of src/ei/closeout_association.py.
use portable_external_intell.Prelude.{
  List, Option, String, arith, none, refl, some, sym, true, ℕ, ◌∙◌, ◌≡◌, ◌≤◌,
}
use portable_external_intell.Queue.Item.{SpoolRef}
use portable_external_intell.Closeout.Record.{
  ApplicationRef, Association, Decision, Status, TeamResult, Witness, answer_yes, applied,
  committed, lost, prepared, preparing,
}
use portable_external_intell.Closeout.Shape.{
  Ruled, applied-answer, prepared-no_digest, preparing-Blank,
}
use portable_external_intell.Closeout.Files.{StoreEnv, terminal}
use portable_external_intell.Closeout.Stages.{Digests, applied_of, prepared_of, with_application}

-- The order of the stages.
abbrev pub rank : Status → ℕ
rank s = elim s [ preparing ↦ 0 | prepared ↦ 1 | applied ↦ 2 | committed ↦ 3 | lost ↦ 4 ]

-- What is there stays.
abbrev pub Keeps : {A : Type 0} → Option A → Option A → Type 0
Keeps {A} old new = (a : A) → old ≡ some a → new ≡ some a

pub record Follows (old new : Association) : Type 0 where
  pub intent : new.intent ≡ old.intent
  pub created_at : new.created_at ≡ old.created_at
  pub expires_at : new.expires_at ≡ old.expires_at
  pub spool_id : new.spool_id ≡ old.spool_id
  pub rank_up : rank old.status ≤ rank new.status
  pub decision : Keeps old.decision new.decision
  pub candidate_hash : Keeps old.candidate_hash new.candidate_hash
  pub application_ref : Keeps old.application_ref new.application_ref
  pub result_digest : Keeps old.result_digest new.result_digest

pub Follows-refl : (a : Association) → Follows a a
Follows-refl a = record {
  intent = refl;
  created_at = refl;
  expires_at = refl;
  spool_id = refl;
  rank_up = omega arith;
  decision = λ d h. h;
  candidate_hash = λ d h. h;
  application_ref = λ d h. h;
  result_digest = λ d h. h;
}

pub Follows-trans : (a b c : Association) → Follows a b → Follows b c → Follows a c
Follows-trans a b c h k = record {
  intent = k.intent ∙ h.intent;
  created_at = k.created_at ∙ h.created_at;
  expires_at = k.expires_at ∙ h.expires_at;
  spool_id = k.spool_id ∙ h.spool_id;
  rank_up = omega (arith, h.rank_up, k.rank_up);
  decision = λ d e. k.decision d (h.decision d e);
  candidate_hash = λ d e. k.candidate_hash d (h.candidate_hash d e);
  application_ref = λ d e. k.application_ref d (h.application_ref d e);
  result_digest = λ d e. k.result_digest d (h.result_digest d e);
}

-- A new status alone, or with a new spool, reason or team result.
pub restatus-Follows :
    (c : Association) (s : Status) (ref : Option SpoolRef) (t : Option TeamResult) (reason : String)
    → rank c.status ≤ rank s
    → Follows c (record c { status = s; spool_ref = ref; team_result = t; reason_code = reason })
restatus-Follows c s ref t reason up = record {
  intent = refl;
  created_at = refl;
  expires_at = refl;
  spool_id = refl;
  rank_up = up;
  decision = λ d h. h;
  candidate_hash = λ d h. h;
  application_ref = λ d h. h;
  result_digest = λ d h. h;
}

pub Keeps-none : {A : Type 0} (old new : Option A) → old ≡ none → Keeps old new
Keeps-none old new h a k = absurd (cc (sym h ∙ k))

pub terminal-rank :
    (old new : Status) → rank old ≤ rank new → terminal old ≡ true → terminal new ≡ true
terminal-rank old new up h = ground arith

-- An application that is named for the first time.
pub with_application-Follows :
    (env : StoreEnv) (digests : Digests) (c : Association) (ref : ApplicationRef) (id : String)
    → c.application_ref ≡ none
    → Follows c (with_application env digests c ref id)
with_application-Follows env digests c ref id e = record {
  intent = refl;
  created_at = refl;
  expires_at = refl;
  spool_id = refl;
  rank_up = omega arith;
  decision = λ d h. h;
  candidate_hash = λ d h. h;
  application_ref = Keeps-none _ _ e;
  result_digest = λ d h. h;
}

module _ (digests : Digests) where
  -- The record that `_persist_prepared` writes over one that is preparing, from an earlier reading.
  pub prepared_of-Follows :
      (env : StoreEnv) (r c : Association) (ref : SpoolRef) (d : Decision) (candidate_hash : String)
      → Follows r c
      → Ruled c
      → c.status ≡ preparing
      → Follows c (prepared_of env digests r ref d candidate_hash)
  unfolding prepared_of
  prepared_of-Follows env r c ref d candidate_hash before ruled s =
      let blank = preparing-Blank c ruled s in
      record {
        intent = sym before.intent;
        created_at = sym before.created_at;
        expires_at = sym before.expires_at;
        spool_id = sym before.spool_id;
        rank_up = rw s (omega arith);
        decision = Keeps-none _ _ blank.decision;
        candidate_hash = Keeps-none _ _ blank.candidate_hash;
        application_ref = Keeps-none _ _ blank.application_ref;
        result_digest = Keeps-none _ _ blank.result_digest;
      }

  -- The record that `_persist_verified_witness` writes over one that is prepared.
  pub applied_of-Follows :
      (env : StoreEnv) (r c : Association) (witness : List Witness)
      → Follows r c
      → Ruled c
      → Ruled (applied_of env digests r witness)
      → c.status ≡ prepared
      → Follows c (applied_of env digests r witness)
  unfolding applied_of
  applied_of-Follows env r c witness before ruled ruled' s =
      let (answer, (h, candidate), (p, application)) =
        applied-answer (applied_of env digests r witness) ruled' refl in
      record {
        intent = sym before.intent;
        created_at = sym before.created_at;
        expires_at = sym before.expires_at;
        spool_id = sym before.spool_id;
        rank_up = rw s (omega arith);
        decision = λ d e. answer ∙ sym (before.decision answer_yes answer) ∙ e;
        candidate_hash = λ d e. candidate ∙ sym (before.candidate_hash h candidate) ∙ e;
        application_ref = λ d e. application ∙ sym (before.application_ref p application) ∙ e;
        result_digest =
            Keeps-none _ _ (prepared-no_digest c ruled s (before.decision answer_yes answer));
      }
