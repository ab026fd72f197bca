-- ===== src/Organizer/Probes.antt =====
-- How often `run` of src/ei/organizer_recovery.py calls the operation of a hold, over any calls.
use portable_external_intell.Prelude.{
  All, Bool, Bool-cases, List, Option, [], ap, arith, false, if◌then◌else◌, inl, inr, is_some, none,
  ok, refl, subst, true, ℕ, ◌+◌, ◌∙◌, ◌∷◌, ◌≡◌, ◌≤◌,
}
use portable_external_intell.Organizer.State.{
  File, Organizer, Request, State, fingerprint_ok, read_state,
}
use portable_external_intell.Organizer.Run.{
  Answer, Provider, Ran, crashed, failed, held, retry_open, returned, run, semantic, started,
}
use portable_external_intell.Organizer.Validity.{Valid, read-Valid}
use portable_external_intell.Organizer.Cooldown.{cools, may_call, state_after}
use portable_external_intell.Organizer.Promises.{called-run, read-called, read-run}

-- One call of `run`.
pub record Call : Type 0 where
  pub provider : Option Provider
  pub refused : Bool
  pub answer : Answer
  pub now : ℕ

abbrev pub run_call : Organizer → Call → File → Ran
run_call o c f = run o c.provider c.refused c.answer c.now f

-- How often the operation is called in a sequence of runs.
abbrev pub calls_made : Organizer → List Call → File → ℕ
calls_made o [] f = 0
calls_made o (c ∷ cs) f =
    (if (run_call o c f).called then 1 else 0) + calls_made o cs (run_call o c f).file

abbrev pub probes : Option Request → ℕ
probes r = if is_some r then 1 else 0

-- A probe spends the request, and the hold stays.
spent :
    (o : Organizer) (now : ℕ) (r : Bool) (a : Answer) (s : State)
    → cools r a ≡ true
    → s.needs_action ≡ true
    → ((state_after o true now r a s).needs_action ≡ true)
      × ((state_after o true now r a s).retry_request ≡ none)
unfolding started failed
spent o now r crashed s c held = (held, refl)
spent o now r (returned d) s c held =
    let plain : (semantic d ≡ false) × (r ≡ false) = ground arith in
    rw (plain.0, plain.1) (refl, refl)

no_request-closed :
    (o : Organizer) (p : Option Provider) (now : ℕ) (s : State)
    → s.needs_action ≡ true
    → may_call o p now s ≡ true
    → is_some s.retry_request ≡ true
unfolding retry_open
no_request-closed o p now s n y = ground arith

read-probed :
    (o : Organizer) (c : Call) (f : File) (s : State)
    → Valid o.provider_id s
    → read_state o f ≡ ok s
    → s.needs_action ≡ true
    → may_call o c.provider c.now s ≡ true
    → read_state o (run_call o c f).file ≡ ok (state_after o true c.now c.refused c.answer s)
read-probed o c f s v e n y =
    read-called o c.provider c.refused c.answer c.now f v e y
    ∙ ap (λ k. ok (state_after o k c.now c.refused c.answer s)) n

-- With a well-formed fingerprint in the object, on a file that reads and is held: any sequence of
-- runs at any times, in which no answer decides and none is a proven refusal, calls the operation
-- at most once if a retry request is pending, and never otherwise.
pub probe-bound :
    (o : Organizer) (cs : List Call) (f : File) (s : State)
    → fingerprint_ok o.config_fingerprint ≡ true
    → read_state o f ≡ ok s
    → s.needs_action ≡ true
    → All (λ c. cools c.refused c.answer ≡ true) cs
    → calls_made o cs f ≤ probes s.retry_request
probe-bound o [] f s fine e n all = omega arith
probe-bound o (c ∷ cs) f s fine e n (a, rest) =
    let v = read-Valid o f s fine e in
    let called = called-run o c.provider c.refused c.answer c.now f e in
    elim (Bool-cases (may_call o c.provider c.now s)) [
      | inl y ↦
          let after = state_after o true c.now c.refused c.answer s in
          let kept = spent o c.now c.refused c.answer s a n in
          let more =
            probe-bound o cs (run_call o c f).file after fine (read-probed o c f s v e n y) kept.0
              rest in
          let none_left : calls_made o cs (run_call o c f).file ≤ 0 =
            subst (λ r. calls_made o cs (run_call o c f).file ≤ probes r) kept.1 more in
          rw (called, y, no_request-closed o c.provider c.now s n y) (omega (arith, none_left))
      | inr k ↦
          let left : read_state o (run_call o c f).file ≡ ok s =
            read-run o c.provider c.refused c.answer c.now f v e ∙ rw k refl in
          let more = probe-bound o cs (run_call o c f).file s fine left n rest in
          rw (called, k) (omega (arith, more))
    ]
