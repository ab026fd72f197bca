-- ===== src/Organizer/Run.antt =====
-- `run` and `recover` of src/ei/organizer_recovery.py. The operation is what the caller passes in: it
-- returns a decision, or it does not return. A run says whether it made the call.
use portable_external_intell.Prelude.{
  ℕ, ◌+◌, String, Bool, true, false, not, ◌&&◌, ◌||◌, Option, none, some, leb, ltb, str_eq,
  if◌then◌else◌, is_some, seconds, Result, ok, err,
}
use portable_external_intell.Organizer.State.{
  State, File, Organizer, OrganizerError, interrupted, reason_ok, read_state, write_state,
  next_retry,
}

pub data Verdict : Type 0 where
  yes_gate no_gate deferred_gate failed_gate : Verdict

pub record GateDecision : Type 0 where
  pub decision : Verdict
  pub reason_code : String
  pub provider_id : String
  pub retry_after_seconds : Option ℕ
  pub next_eligible_at : Option ℕ

abbrev pub semantic : GateDecision → Bool
semantic d = elim d.decision [ yes_gate ↦ true | no_gate ↦ true | _ ↦ false ]

pub record Provider : Type 0 where
  pub provider_id : String
  pub enabled : Bool

-- What the call of the operation comes to.
pub data Answer : Type 0 where
  returned : GateDecision → Answer
  crashed : Answer

-- A run: whether the operation was called, what the caller gets, and the file that is left.
pub record Ran : Type 0 where
  pub called : Bool
  pub result : Result OrganizerError GateDecision
  pub file : File

-- `now < due`
abbrev pub not_yet : Option ℕ → ℕ → Bool
not_yet none now = false
not_yet (some due) now = ltb now due

unfoldable pub is_enabled : Organizer → Option Provider → Bool
is_enabled o none = false
is_enabled o (some p) = str_eq p.provider_id o.provider_id && p.enabled

unfoldable pub same_binding : Organizer → State → Bool
same_binding o s =
    (str_eq s.config_fingerprint "" && str_eq o.config_fingerprint "")
    || (not (str_eq s.config_fingerprint "") && str_eq o.config_fingerprint s.config_fingerprint)

-- A hold that a retry may probe at all.
abbrev pub probeable : State → Bool
probeable s = str_eq s.reason_code "AUTH_FAILED" || s.retry_consumed

unfoldable pub retry_open : Organizer → Option Provider → State → Bool
unfolding is_enabled same_binding
retry_open o p s = is_some s.retry_request && is_enabled o p && same_binding o s && probeable s

abbrev pub value_or : Option ℕ → ℕ → ℕ
value_or none d = d
value_or (some t) d = t

abbrev max_of : ℕ → ℕ → ℕ
max_of a b = if leb a b then b else a

deferred : Organizer → State → Option ℕ → GateDecision
deferred o s due = record {
  decision = deferred_gate;
  reason_code = s.reason_code;
  provider_id = o.provider_id;
  retry_after_seconds = none;
  next_eligible_at = due;
}

-- The time in the answer to a held call: that of the file, where a request is pending.
held_due : State → ℕ → Option ℕ
held_due s now =
    if is_some s.retry_request
    then s.next_eligible_at
    else some (max_of (value_or s.next_eligible_at now) (next_retry now 4 none))

-- What is written before the provider is called.
unfoldable pub started : Bool → ℕ → State → State
started retry now s = record s {
  attempts = s.attempts + 1;
  retry_request = if retry then none else s.retry_request;
  retry_consumed = if retry then true else s.retry_consumed;
  reason_code = "PROVIDER_INTERRUPTED";
  next_eligible_at = some (next_retry now (s.attempts + 1) none);
}

unfoldable pub succeeded : State → State
succeeded s = record s {
  attempts = 0;
  malformed_attempts = 0;
  needs_action = false;
  reason_code = "READY";
  next_eligible_at = none;
  retry_request = none;
  retry_consumed = false;
}

abbrev pub safe_reason : GateDecision → String
safe_reason d = if reason_ok d.reason_code then d.reason_code else "PROVIDER_FAILED"

abbrev malformed_count : State → GateDecision → ℕ
malformed_count s d =
    if str_eq (safe_reason d) "MALFORMED_RESPONSE"
    then s.malformed_attempts + 1
    else s.malformed_attempts

abbrev needs_now : Organizer → Bool → State → GateDecision → Bool
needs_now o retry s d =
    retry || str_eq (safe_reason d) "AUTH_FAILED" || leb o.malformed_limit (malformed_count s d)

unfoldable pub deadline : ℕ → GateDecision → Option ℕ
deadline now d = elim d.retry_after_seconds [
  | none ↦ d.next_eligible_at
  | some r ↦ some (max_of (value_or d.next_eligible_at now) (now + seconds r))
]

-- `s` is the state that was written before the call.
unfoldable pub failed : Organizer → Bool → ℕ → GateDecision → State → State
unfolding deadline
failed o retry now d s = record s {
  reason_code = safe_reason d;
  malformed_attempts = malformed_count s d;
  needs_action = needs_now o retry s d;
  retry_consumed = if needs_now o retry s d then s.retry_consumed else false;
  next_eligible_at = some (next_retry now s.attempts (deadline now d));
}

-- After the call: a refusal of the router restores what was there, and a crash leaves the cooldown.
unfoldable pub after_call : Organizer → Bool → ℕ → Bool → Answer → State → Ran
unfolding started succeeded failed
after_call o retry now refused crashed s = record {
  called = true;
  result = err interrupted;
  file = write_state o (started retry now s);
}
after_call o retry now refused (returned d) s =
    if semantic d
    then record {
      called = true;
      result = ok d;
      file = write_state o (succeeded (started retry now s));
    }
    else if refused
    then record { called = true; result = ok d; file = write_state o s }
    else let after = failed o retry now d (started retry now s) in
      record {
        called = true;
        result = ok (record d { next_eligible_at = after.next_eligible_at });
        file = write_state o after;
      }

-- The answer without a call leaves the file alone.
unfoldable pub held : File → GateDecision → Ran
held f d = record { called = false; result = ok d; file = f }

unfoldable pub run_state : Organizer → Option Provider → Bool → Answer → ℕ → File → State → Ran
unfolding retry_open after_call held deferred held_due
run_state o p refused answer now f s =
    if s.needs_action
    then if not (retry_open o p s)
      then held f (deferred o s (held_due s now))
      else if not_yet s.next_eligible_at now
      then held f (deferred o s s.next_eligible_at)
      else after_call o true now refused answer s
    else if not_yet s.next_eligible_at now
    then held f (deferred o s s.next_eligible_at)
    else after_call o false now refused answer s

unfoldable pub run_read :
    Organizer → Option Provider → Bool → Answer → ℕ → File → Result OrganizerError State → Ran
unfolding run_state
run_read o p refused answer now f (ok s) = run_state o p refused answer now f s
run_read o p refused answer now f (err e) = record { called = false; result = err e; file = f }

unfoldable pub run : Organizer → Option Provider → Bool → Answer → ℕ → File → Ran
unfolding run_read
run o p refused answer now f = run_read o p refused answer now f (read_state o f)
