-- ===== src/Organizer/Promises.antt =====
-- What the runs of src/ei/organizer_recovery.py promise together: the file ties one run to the next.
use portable_external_intell.Prelude.{
  Bool, Bool-cases, Option, Result, Result-cases, ap, arith, err, false, if◌then◌else◌, inl, inr,
  ok, refl, seconds, some, sym, true, ℕ, ◌+◌, ◌<◌, ◌∙◌, ◌≡◌,
}
use portable_external_intell.Organizer.State.{
  File, Organizer, OrganizerError, State, fingerprint_ok, read_state,
}
use portable_external_intell.Organizer.Run.{
  Answer, GateDecision, Provider, returned, run, run_read, run_state, semantic, started, succeeded,
}
use portable_external_intell.Organizer.Validity.{Valid, read-Valid, read-write}
use portable_external_intell.Organizer.Cooldown.{
  called-run_state, cooled, cools, file-run_state, may_call, state_after, state_after-Valid,
}

run-read :
    (o : Organizer) (p : Option Provider) (refused : Bool) (a : Answer) (now : ℕ) (f : File)
    {s : State}
    → read_state o f ≡ ok s
    → run o p refused a now f ≡ run_state o p refused a now f s
unfolding run run_read
run-read o p refused a now f e = rw e refl

run-unread :
    (o : Organizer) (p : Option Provider) (refused : Bool) (a : Answer) (now : ℕ) (f : File)
    {x : OrganizerError}
    → read_state o f ≡ err x
    → (run o p refused a now f).called ≡ false
unfolding run run_read
run-unread o p refused a now f e = rw e refl

pub called-run :
    (o : Organizer) (p : Option Provider) (refused : Bool) (a : Answer) (now : ℕ) (f : File)
    {s : State}
    → read_state o f ≡ ok s
    → (run o p refused a now f).called ≡ may_call o p now s
called-run o p refused a now f {s = s} e =
    ap (λ r. r.called) (run-read o p refused a now f e) ∙ called-run_state o p refused a now f s

pub called-Readable :
    (o : Organizer) (p : Option Provider) (refused : Bool) (a : Answer) (now : ℕ) (f : File)
    → (run o p refused a now f).called ≡ true
    → (s : State) × (read_state o f ≡ ok s) × (may_call o p now s ≡ true)
called-Readable o p refused a now f h = elim (Result-cases (read_state o f)) [
  | inl (s, e) ↦ (s, e, sym (called-run o p refused a now f e) ∙ h)
  | inr (x, e) ↦ let no = run-unread o p refused a now f e in cc
]

-- The state that a run leaves.
abbrev pub next_state : Organizer → Option Provider → Bool → Answer → ℕ → State → State
next_state o p refused a now s =
    if may_call o p now s then state_after o s.needs_action now refused a s else s

pub read-run :
    (o : Organizer) (p : Option Provider) (refused : Bool) (a : Answer) (now : ℕ) (f : File)
    {s : State}
    → Valid o.provider_id s
    → read_state o f ≡ ok s
    → read_state o (run o p refused a now f).file ≡ ok (next_state o p refused a now s)
read-run o p refused a now f {s = s} v e =
    let file =
      ap (λ r. r.file) (run-read o p refused a now f e) ∙ file-run_state o p refused a now f s in
    elim (Bool-cases (may_call o p now s)) [
      | inl y ↦
          rw (file, y)
            (read-write o (state_after o s.needs_action now refused a s)
              (state_after-Valid o s.needs_action now refused a o.provider_id s v))
      | inr n ↦ rw (file, n) e
    ]

pub read-called :
    (o : Organizer) (p : Option Provider) (refused : Bool) (a : Answer) (now : ℕ) (f : File)
    {s : State}
    → Valid o.provider_id s
    → read_state o f ≡ ok s
    → may_call o p now s ≡ true
    → read_state o (run o p refused a now f).file
      ≡ ok (state_after o s.needs_action now refused a s)
read-called o p refused a now f {s = s} v e y =
    read-run o p refused a now f v e
    ∙ ap (λ (k : Bool). ok (if k then state_after o s.needs_action now refused a s else s)) y

closed-before :
    (o : Organizer) (p : Option Provider) (now t : ℕ) (s : State)
    → s.next_eligible_at ≡ some t
    → now < t
    → may_call o p now s ≡ false
closed-before o p now t s due early = rw due (ground arith)

-- With a well-formed fingerprint in the object: behind a call that crashed, or gave no decision
-- and was no proven refusal, no later run on the file makes a call in the five minutes from then,
-- whatever provider and answer it is given.
pub failure-cools :
    (o : Organizer) (p q : Option Provider) (r w : Bool) (a b : Answer) (now later : ℕ) (f : File)
    → fingerprint_ok o.config_fingerprint ≡ true
    → cools r a ≡ true
    → (run o p r a now f).called ≡ true
    → later < now + seconds 300
    → (run o q w b later (run o p r a now f).file).called ≡ false
failure-cools o p q r w a b now later f fine c h early =
    let (s, e, y) = called-Readable o p r a now f h in
    let (t, due, least) = cooled o s.needs_action now r a s c in
    called-run o q w b later (run o p r a now f).file
      (read-called o p r a now f (read-Valid o f s fine e) e y)
    ∙ closed-before o q later t (state_after o s.needs_action now r a s) due (omega arith)

-- With a well-formed fingerprint in the object, on a file that reads: a run whose answer is no
-- decision and is proven to have reached no provider leaves the state as it was.
pub refusal-restores :
    (o : Organizer) (p : Option Provider) (d : GateDecision) (now : ℕ) (f : File) (s : State)
    → fingerprint_ok o.config_fingerprint ≡ true
    → read_state o f ≡ ok s
    → semantic d ≡ false
    → read_state o (run o p true (returned d) now f).file ≡ ok s
refusal-restores o p d now f s fine e plain = elim (Bool-cases (may_call o p now s)) [
  | inl y ↦ read-called o p true (returned d) now f (read-Valid o f s fine e) e y ∙ rw plain refl
  | inr n ↦ read-run o p true (returned d) now f (read-Valid o f s fine e) e ∙ rw n refl
]

open-Ready :
    (o : Organizer) (p : Option Provider) (now : ℕ) (s : State)
    → may_call o p now (succeeded s) ≡ true
unfolding succeeded
open-Ready o p now s = refl

abbrev read_ok : State → Result OrganizerError State
read_ok s = ok s

decided :
    (o : Organizer) (retry : Bool) (now : ℕ) (r : Bool) (d : GateDecision) (s : State)
    → semantic d ≡ true
    → read_ok (state_after o retry now r (returned d) s) ≡ read_ok (succeeded (started retry now s))
decided o retry now r d s decides = rw decides refl

-- With a well-formed fingerprint in the object: behind a call that returned a decision, the next
-- run on the file makes its call at any time.
pub decision-reopens :
    (o : Organizer) (p q : Option Provider) (r w : Bool) (d : GateDecision) (b : Answer)
    (now later : ℕ) (f : File)
    → fingerprint_ok o.config_fingerprint ≡ true
    → semantic d ≡ true
    → (run o p r (returned d) now f).called ≡ true
    → (run o q w b later (run o p r (returned d) now f).file).called ≡ true
decision-reopens o p q r w d b now later f fine decides h =
    let (s, e, y) = called-Readable o p r (returned d) now f h in
    called-run o q w b later (run o p r (returned d) now f).file (
      read-called o p r (returned d) now f (read-Valid o f s fine e) e y
      ∙ decided o s.needs_action now r d s decides)
    ∙ open-Ready o q later (started s.needs_action now s)
