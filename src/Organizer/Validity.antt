-- ===== src/Organizer/Validity.antt =====
-- Which states the next read of the file accepts, after `run` of src/ei/organizer_recovery.py.
use portable_external_intell.Prelude.{
  ℕ, String, Bool, true, false, ◌≡◌, refl, subst, inl, inr, ok, arith, eq_refl, Bool-cases,
}
use portable_external_intell.Organizer.State.{
  State, File, missing, unreadable, saved, Organizer, reason_ok, fingerprint_ok, request_ok,
  state_ok, read_state, write_state, initial,
}
use portable_external_intell.Organizer.Run.{GateDecision, safe_reason, started, succeeded, failed}

-- A state that the next read accepts.
abbrev pub Valid : String → State → Type 0
Valid p s =
    (reason_ok s.reason_code ≡ true)
    × (fingerprint_ok s.config_fingerprint ≡ true)
    × (request_ok p s.config_fingerprint s.retry_request ≡ true)

pub state_ok-Valid : (p : String) (s : State) → state_ok p s ≡ true → Valid p s
unfolding state_ok
state_ok-Valid p s h = ground arith

pub Valid-state_ok : (p : String) (s : State) → Valid p s → state_ok p s ≡ true
unfolding state_ok
Valid-state_ok p s (a, b, c) = rw (a, b, c) refl

pub read-write :
    (o : Organizer) (s : State) → Valid o.provider_id s → read_state o (write_state o s) ≡ ok s
unfolding read_state
read-write o s v = rw (eq_refl o.provider_id, Valid-state_ok o.provider_id s v) refl

ready-Valid :
    (o : Organizer) → fingerprint_ok o.config_fingerprint ≡ true → Valid o.provider_id (initial o)
unfolding reason_ok request_ok
ready-Valid o h = (refl, h, refl)

pub read-Valid :
    (o : Organizer) (f : File) (s : State)
    → fingerprint_ok o.config_fingerprint ≡ true
    → read_state o f ≡ ok s
    → Valid o.provider_id s
unfolding read_state
read-Valid o missing s h e =
    let e₁ : initial o ≡ s = ground arith in subst (Valid o.provider_id) e₁ (ready-Valid o h)
read-Valid o unreadable s h e = cc
read-Valid o (saved v p t) s h e =
    let both : (t ≡ s) × (state_ok o.provider_id t ≡ true) = ground arith in
    subst (Valid o.provider_id) both.0 (state_ok-Valid o.provider_id t both.1)

interrupted-ok : reason_ok "PROVIDER_INTERRUPTED" ≡ true
unfolding reason_ok
interrupted-ok = refl

pub started-Valid :
    (p : String) (retry : Bool) (now : ℕ) (s : State) → Valid p s → Valid p (started retry now s)
unfolding started request_ok
started-Valid p true now s (a, b, c) = (interrupted-ok, b, refl)
started-Valid p false now s (a, b, c) = (interrupted-ok, b, c)

pub succeeded-Valid : (p : String) (s : State) → Valid p s → Valid p (succeeded s)
unfolding succeeded request_ok reason_ok
succeeded-Valid p s (a, b, c) = (refl, b, refl)

provider_failed-ok : reason_ok "PROVIDER_FAILED" ≡ true
unfolding reason_ok
provider_failed-ok = refl

safe_reason-ok : (d : GateDecision) → reason_ok (safe_reason d) ≡ true
safe_reason-ok d = elim (Bool-cases (reason_ok d.reason_code)) [
  | inl e ↦ rw e e
  | inr e ↦ rw e provider_failed-ok
]

pub failed-Valid :
    (o : Organizer) (retry : Bool) (now : ℕ) (d : GateDecision) (p : String) (s : State)
    → Valid p s
    → Valid p (failed o retry now d s)
unfolding failed
failed-Valid o retry now d p s (a, b, c) = (safe_reason-ok d, b, c)
