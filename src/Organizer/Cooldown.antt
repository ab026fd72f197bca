-- ===== src/Organizer/Cooldown.antt =====
-- When `run` of src/ei/organizer_recovery.py calls its operation, and what it writes when it does.
use portable_external_intell.Prelude.{
  Bool, Option, String, arith, false, if_elim, if◌then◌else◌, none, not, refl, seconds, some, suc,
  true, zero, ℕ, ◌&&◌, ◌+◌, ◌-◌, ◌||◌, ◌≡◌, ◌≤◌,
}
use portable_external_intell.Organizer.State.{
  File, Organizer, State, backoff, next_retry, write_state,
}
use portable_external_intell.Organizer.Run.{
  Answer, Provider, after_call, crashed, deadline, failed, held, not_yet, retry_open, returned,
  run_state, semantic, started, succeeded,
}
use portable_external_intell.Organizer.Validity.{
  Valid, failed-Valid, started-Valid, succeeded-Valid,
}

-- The state that a call leaves in the file.
abbrev pub state_after : Organizer → Bool → ℕ → Bool → Answer → State → State
state_after o retry now refused crashed s = started retry now s
state_after o retry now refused (returned d) s =
    if semantic d
    then succeeded (started retry now s)
    else if refused
    then s
    else failed o retry now d (started retry now s)

-- The test of a run for its call.
abbrev pub may_call : Organizer → Option Provider → ℕ → State → Bool
may_call o p now s =
    (not s.needs_action || retry_open o p s) && not (not_yet s.next_eligible_at now)

pub called-run_state :
    (o : Organizer) (p : Option Provider) (refused : Bool) (a : Answer) (now : ℕ) (f : File)
    (s : State)
    → (run_state o p refused a now f s).called ≡ may_call o p now s
unfolding run_state after_call held
called-run_state o p refused crashed now f s = ground arith
called-run_state o p refused (returned d) now f s = ground arith

pub file-run_state :
    (o : Organizer) (p : Option Provider) (refused : Bool) (a : Answer) (now : ℕ) (f : File)
    (s : State)
    → (run_state o p refused a now f s).file ≡ (
        if may_call o p now s
        then write_state o (state_after o s.needs_action now refused a s)
        else f)
unfolding run_state after_call held
file-run_state o p refused crashed now f s = ground arith
file-run_state o p refused (returned d) now f s = ground arith

-- An answer behind which a cooldown stays: neither semantic, nor a refusal that restores the state.
abbrev pub cools : Bool → Answer → Bool
cools refused crashed = true
cools refused (returned d) = not (semantic d) && not refused

backoff-ge : (n : ℕ) → 300 ≤ backoff n
unfolding backoff
backoff-ge zero = omega arith
backoff-ge (suc zero) = omega arith
backoff-ge (suc (suc zero)) = omega arith
backoff-ge (suc (suc (suc n))) = omega arith

pub next_retry-ge :
    (now attempt : ℕ) (given : Option ℕ) → now + seconds 300 ≤ next_retry now attempt given
unfolding next_retry
next_retry-ge now n none = let least = backoff-ge (n - 1) in omega arith
next_retry-ge now n (some t) = let least = backoff-ge (n - 1) in ground arith

pub cooled :
    (o : Organizer) (retry : Bool) (now : ℕ) (refused : Bool) (a : Answer) (s : State)
    → cools refused a ≡ true
    → (t : ℕ) × ((state_after o retry now refused a s).next_eligible_at ≡ some t)
      × (now + seconds 300 ≤ t)
unfolding started failed
cooled o retry now refused crashed s h =
    (next_retry now (s.attempts + 1) none, refl, next_retry-ge now (s.attempts + 1) none)
cooled o retry now refused (returned d) s h =
    let plain : (semantic d ≡ false) × (refused ≡ false) = ground arith in
    let due = deadline now d in
    rw (plain.0, plain.1)
      (next_retry now (s.attempts + 1) due, refl, next_retry-ge now (s.attempts + 1) due)

pub state_after-Valid :
    (o : Organizer) (retry : Bool) (now : ℕ) (refused : Bool) (a : Answer) (p : String) (s : State)
    → Valid p s
    → Valid p (state_after o retry now refused a s)
state_after-Valid o retry now refused crashed p s v = started-Valid p retry now s v
state_after-Valid o retry now refused (returned d) p s v =
    let w = started-Valid p retry now s v in
    if_elim (Valid p) (semantic d) (succeeded-Valid p (started retry now s) w)
      (if_elim (Valid p) refused v (failed-Valid o retry now d p (started retry now s) w))
