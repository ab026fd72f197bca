-- ===== src/Organizer/Binding.antt =====
-- The fingerprint that a request of src/ei/organizer_recovery.py binds, and the request made again.
use portable_external_intell.Prelude.{
  Option, String, arith, eq_iff, eq_refl, false, if_elim, is_some, none, not, refl, some, str_eq,
  true, ℕ, ◌&&◌, ◌≡◌,
}
use portable_external_intell.Organizer.State.{Organizer, Request, State, fingerprint_ok, request_ok}
use portable_external_intell.Organizer.Run.{Provider}
use portable_external_intell.Organizer.Request.{
  bad_fingerprint, learned, mismatched, objection, text_or, with_request,
}
use portable_external_intell.Organizer.Validity.{Valid}

-- What no objection says of the given fingerprint.
pub record Agreed (o : Organizer) (p : Provider) (given : Option String) (s : State) : Type 0 where
  pub named : str_eq p.provider_id o.provider_id ≡ true
  pub turned_on : p.enabled ≡ true
  pub well_formed : bad_fingerprint given ≡ false
  pub present : (not (str_eq s.config_fingerprint "") && not (is_some given)) ≡ false
  pub matching : mismatched given s.config_fingerprint ≡ false

pub no_objection-Agreed :
    (o : Organizer) (p : Provider) (given : Option String) (s : State)
    → is_some (objection o p given s) ≡ false
    → Agreed o p given s
unfolding objection
no_objection-Agreed o p given s h = record {
  named = ground arith;
  turned_on = ground arith;
  well_formed = ground arith;
  present = ground arith;
  matching = ground arith;
}

empty_text : (f : String) → str_eq f "" ≡ true → f ≡ ""
empty_text f h = ground (arith, eq_iff f "")

-- The state with the request has one fingerprint in both places.
bound-once :
    (o : Organizer) (p : Provider) (now : ℕ) (given : Option String) (s : State)
    → Agreed o p given s
    → (with_request o now given s).config_fingerprint ≡ text_or given s.config_fingerprint
unfolding with_request
bound-once o p now none s a = ground arith
bound-once o p now (some f) s a =
    let m = a.matching in
    let same_text = eq_iff f s.config_fingerprint in
    ground (arith, eq_iff s.config_fingerprint "", eq_iff f "", eq_iff f s.config_fingerprint, m)

pub Agreed-no_objection :
    (o : Organizer) (p : Provider) (given : Option String) (s : State)
    → Agreed o p given s
    → objection o p given s ≡ none
unfolding objection
Agreed-no_objection o p given s a =
    rw (a.named, a.turned_on, a.well_formed, a.present, a.matching) refl

pub binding-ok :
    (o : Organizer) (p : Provider) (given : Option String) (s : State)
    → Agreed o p given s
    → fingerprint_ok s.config_fingerprint ≡ true
    → fingerprint_ok (text_or given s.config_fingerprint) ≡ true
unfolding fingerprint_ok
binding-ok o p none s a h = h
binding-ok o p (some f) s a h = let w = a.well_formed in ground arith

abbrev pub bound_request : Organizer → ℕ → Option String → State → Request
bound_request o now given s = record {
  provider_id = o.provider_id;
  requested_at = now;
  config_fingerprint = text_or given s.config_fingerprint;
}

request_ok-bound :
    (o : Organizer) (now : ℕ) (given : Option String) (s : State)
    → fingerprint_ok (text_or given s.config_fingerprint) ≡ true
    → request_ok o.provider_id
        (text_or given s.config_fingerprint)
        (some (bound_request o now given s))
      ≡ true
unfolding request_ok
request_ok-bound o now given s h =
    rw (eq_refl o.provider_id, h, eq_refl (text_or given s.config_fingerprint)) refl

reason-with_request :
    (o : Organizer) (now : ℕ) (given : Option String) (s : State)
    → (with_request o now given s).reason_code ≡ s.reason_code
unfolding with_request
reason-with_request o now given s = refl

pub request-with_request :
    (o : Organizer) (now : ℕ) (given : Option String) (s : State)
    → (with_request o now given s).retry_request ≡ some (bound_request o now given s)
unfolding with_request
request-with_request o now given s = refl

pub with_request-Valid :
    (o : Organizer) (p : Provider) (now : ℕ) (given : Option String) (s : State)
    → Agreed o p given s
    → Valid o.provider_id s
    → Valid o.provider_id (with_request o now given s)
with_request-Valid o p now given s a (x, y, z) =
    let once = bound-once o p now given s a in
    let fine = binding-ok o p given s a y in
    rw (reason-with_request o now given s, once, request-with_request o now given s)
      (x, fine, request_ok-bound o now given s fine)

pub learned-provider :
    (o : Organizer) (given : Option String) (s : State)
    → (learned o given s).provider_id ≡ o.provider_id
unfolding learned
learned-provider o given s =
    if_elim (λ (q : Organizer). q.provider_id ≡ o.provider_id)
      (not (str_eq (text_or given s.config_fingerprint) "") && str_eq s.config_fingerprint "") refl
      refl

-- The same request, once it is recorded, is agreed to again.
pub still-Agreed :
    (o : Organizer) (p : Provider) (now : ℕ) (given : Option String) (s : State)
    → Agreed o p given s
    → Agreed (learned o given s) p given (with_request o now given s)
still-Agreed o p now none s a = record {
  named = rw (learned-provider o none s) a.named;
  turned_on = a.turned_on;
  well_formed = refl;
  present = rw (bound-once o p now none s a) a.present;
  matching = refl;
}
still-Agreed o p now (some f) s a = record {
  named = rw (learned-provider o (some f) s) a.named;
  turned_on = a.turned_on;
  well_formed = a.well_formed;
  present = ground arith;
  matching = rw (bound-once o p now (some f) s a, eq_refl f) (ground arith);
}
