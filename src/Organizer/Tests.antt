-- ===== src/Organizer/Tests.antt =====
-- Runs of the organizer of src/ei/organizer_recovery.py on concrete files.
use portable_external_intell.Prelude.{
  String, [], ap, arith, err, false, none, ok, refl, some, true, ℕ, ◌∙◌, ◌∷◌, ◌≡◌, ◌≤◌,
}
use portable_external_intell.Organizer.State.{
  File, Organizer, State, fingerprint_ok, initial, missing, organizer_state_invalid, read_state,
  reason_ok, request_ok, sha256_ok, state_ok, write_state,
}
use portable_external_intell.Organizer.Run.{
  GateDecision, Provider, Verdict, after_call, crashed, failed_gate, returned, run, run_read,
  run_state, yes_gate,
}
use portable_external_intell.Organizer.Request.{
  bad_fingerprint, objection, recover, request_auth_retry,
}
use portable_external_intell.Organizer.Promises.{decision-reopens, failure-cools, refusal-restores}
use portable_external_intell.Organizer.Probes.{Call, calls_made, probe-bound}
use portable_external_intell.Organizer.Retry.{answered, answered-request, recordable, request-ok}
use portable_external_intell.Organizer.Again.{request-again}
use portable_external_intell.Organizer.Lifetime.{
  Sound, Steps-Sound, no_step, step_request, then_step,
}
use portable_external_intell.Organizer.Lockout.{recover-locks_out, recover-reopens}

abbrev organizer : Organizer
organizer = record { provider_id = "cli"; malformed_limit = 3; config_fingerprint = "" }

abbrev provider : Provider
provider = record { provider_id = "cli"; enabled = true }

abbrev key : String
key = "sha256:0123456789abcdef0123456789abcdef0123456789abcdef0123456789abcdef"

abbrev other_decision : Verdict → String → GateDecision
other_decision v reason = record {
  decision = v;
  reason_code = reason;
  provider_id = "cli";
  retry_after_seconds = none;
  next_eligible_at = none;
}

abbrev auth_failed : GateDecision
auth_failed = other_decision failed_gate "AUTH_FAILED"

abbrev decided_yes : GateDecision
decided_yes = other_decision yes_gate "OK"

abbrev holding : State
holding = record {
  attempts = 1;
  malformed_attempts = 0;
  needs_action = true;
  reason_code = "AUTH_FAILED";
  next_eligible_at = some 0;
  config_fingerprint = "";
  retry_request = none;
  retry_consumed = false;
}

abbrev asked : State
asked = record holding {
  retry_request = some (record { provider_id = "cli"; requested_at = 1; config_fingerprint = "" });
}

abbrev held_file : File
held_file = write_state organizer holding

abbrev asked_file : File
asked_file = write_state organizer asked

blank-ok : fingerprint_ok organizer.config_fingerprint ≡ true
unfolding fingerprint_ok
blank-ok = refl

missing-reads : read_state organizer missing ≡ ok (initial organizer)
unfolding read_state
missing-reads = refl

held-reads : read_state organizer held_file ≡ ok holding
unfolding read_state state_ok reason_ok fingerprint_ok request_ok
held-reads = refl

asked-reads : read_state organizer asked_file ≡ ok asked
unfolding read_state state_ok reason_ok fingerprint_ok request_ok
asked-reads = refl

first-called : (run organizer none false crashed 5 missing).called ≡ true
unfolding run run_read run_state after_call read_state
first-called = refl

decided-called : (run organizer none false (returned decided_yes) 5 missing).called ≡ true
unfolding run run_read run_state after_call read_state
decided-called = refl

failure-cools_example :
    (run organizer
      (some provider)
      false
      (returned decided_yes)
      6
      (run organizer none false crashed 5 missing).file).called
    ≡ false
failure-cools_example =
    failure-cools organizer none (some provider) false false crashed (returned decided_yes) 5 6
      missing blank-ok refl first-called (omega arith)

refusal-restores_example :
    read_state organizer (run organizer none true (returned auth_failed) 5 missing).file
    ≡ ok (initial organizer)
refusal-restores_example =
    refusal-restores organizer none auth_failed 5 missing (initial organizer) blank-ok missing-reads
      refl

decision-reopens_example :
    (run organizer
      (some provider)
      false
      crashed
      6
      (run organizer none false (returned decided_yes) 5 missing).file).called
    ≡ true
decision-reopens_example =
    decision-reopens organizer none (some provider) false false decided_yes crashed 5 6 missing
      blank-ok refl decided-called

abbrev probe : ℕ → Call
probe t = record {
  provider = some provider;
  refused = false;
  answer = returned auth_failed;
  now = t;
}

probe-bound_example : calls_made organizer (probe 1 ∷ probe 1000000000000 ∷ []) asked_file ≤ 1
probe-bound_example =
    probe-bound organizer (probe 1 ∷ probe 1000000000000 ∷ []) asked_file asked blank-ok asked-reads
      refl (refl, (refl, tt))

held-recordable : recordable organizer provider none holding ≡ true
unfolding objection
held-recordable = refl

held-answered : answered (request_auth_retry organizer provider 5 none held_file) ≡ true
held-answered =
    ap answered (request-ok organizer provider 5 none held_file held-reads)
    ∙ answered-request organizer provider 5 none held_file holding
    ∙ held-recordable

request-again_example :
    let r = request_auth_retry organizer provider 5 none held_file in
    let again = request_auth_retry r.organizer provider 6 none r.file in
    (again.reply.reason_code ≡ "AUTH_RETRY_ALREADY_REQUESTED") × (again.file ≡ r.file)
request-again_example = request-again organizer provider 5 6 none held_file blank-ok held-answered

held-Sound : Sound organizer held_file
held-Sound = record { fine = blank-ok; state = holding; reads = held-reads }

Steps-Sound_example :
    Sound
      (request_auth_retry organizer provider 5 none held_file).organizer
      (request_auth_retry organizer provider 5 none held_file).file
Steps-Sound_example =
    Steps-Sound organizer held_file
      (request_auth_retry organizer provider 5 none held_file).organizer
      (request_auth_retry organizer provider 5 none held_file).file
      (then_step organizer held_file organizer held_file
        (request_auth_retry organizer provider 5 none held_file).organizer
        (request_auth_retry organizer provider 5 none held_file).file (no_step organizer held_file)
        (step_request organizer provider 5 none held_file))
      held-Sound

recover-reopens_example :
    let left = recover organizer provider true none held_file in
    (run left.organizer none false crashed 7 left.file).called ≡ true
recover-reopens_example =
    recover-reopens organizer provider none held_file holding none false crashed 7 refl refl
      blank-ok held-reads

key-ok : bad_fingerprint (some key) ≡ false
unfolding sha256_ok
key-ok = refl

recover-locks_out_example :
    let left = recover organizer provider false (some key) asked_file in
    ((run organizer (some provider) false (returned decided_yes) 9 left.file).called ≡ false)
    × ((run organizer (some provider) false (returned decided_yes) 9 left.file).result
        ≡ err organizer_state_invalid)
recover-locks_out_example =
    recover-locks_out organizer organizer provider key asked_file asked (some provider) false
      (returned decided_yes) 9 refl refl key-ok blank-ok asked-reads refl
