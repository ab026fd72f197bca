-- ===== src/Organizer/Lockout.antt =====
-- What the runs after a recovery of src/ei/organizer_recovery.py meet: an open organizer behind verified
-- evidence, and a file that no run can read where the recovery binds a pending request.
use portable_external_intell.Prelude.{
  Bool, Bool-cases, Option, Option-cases, String, arith, eq_iff, err, false, inl, inr, is_some, ok,
  refl, some, str_eq, subst, true, ℕ, ◌∙◌, ◌≡◌,
}
use portable_external_intell.Organizer.State.{
  File, Organizer, Request, State, fingerprint_ok, organizer_state_invalid, read_state, request_ok,
  sha256_ok, state_ok, write_state,
}
use portable_external_intell.Organizer.Run.{Answer, Provider, run, run_read}
use portable_external_intell.Organizer.Request.{bad_fingerprint, lifted, recover, recover_state}
use portable_external_intell.Organizer.Validity.{Valid, read-Valid}
use portable_external_intell.Organizer.Cooldown.{may_call}
use portable_external_intell.Organizer.Promises.{called-run}
use portable_external_intell.Organizer.Recovery.{
  binds_request, recover-ok, recover_state-Readable, recovered_state, recovered_state-Valid,
}

free-verified : (given : Option String) (s : State) → binds_request true given s ≡ false
free-verified given s = refl

open-lifted :
    (o : Organizer) (p : Option Provider) (now : ℕ) (given : Option String) (s : State)
    → may_call o p now (recovered_state true given s) ≡ true
unfolding lifted
open-lifted o p now given s = refl

-- A recovery of the object's own provider with verified evidence, and a well-formed fingerprint or
-- none, on a file that reads: the next run calls its operation, at any time and whatever held it.
pub recover-reopens :
    (o : Organizer) (p : Provider) (given : Option String) (f : File) (s : State)
    (q : Option Provider) (r : Bool) (a : Answer) (now : ℕ)
    → str_eq p.provider_id o.provider_id ≡ true
    → bad_fingerprint given ≡ false
    → fingerprint_ok o.config_fingerprint ≡ true
    → read_state o f ≡ ok s
    → let left = recover o p true given f in (run left.organizer q r a now left.file).called ≡ true
recover-reopens o p given f s q r a now named formed fine e =
    let v = read-Valid o f s fine e in
    let w = recovered_state-Valid o.provider_id true given s formed (free-verified given s) v in
    let left = recover_state-Readable o true given f s e w in
    rw (recover-ok o p true given f named formed e) (
      called-run (recover_state o true given f s).organizer q r a now
        (recover_state o true given f s).file left
      ∙ open-lifted (recover_state o true given f s).organizer q now given s)

empty-bad : bad_fingerprint (some "") ≡ true
unfolding sha256_ok
empty-bad = refl

not_empty : (x : String) → bad_fingerprint (some x) ≡ false → str_eq "" x ≡ false
not_empty x h = elim (Bool-cases (str_eq "" x)) [
  | inl e ↦
      let same_text : "" ≡ x = ground (arith, eq_iff "" x) in
      let bad : bad_fingerprint (some x) ≡ true =
        subst (λ t. bad_fingerprint (some t) ≡ true) same_text empty-bad in
      cc
  | inr e ↦ e
]

request_ok-empty :
    (p x : String) (r : Request) (saved_fingerprint : String)
    → bad_fingerprint (some x) ≡ false
    → str_eq saved_fingerprint "" ≡ true
    → request_ok p saved_fingerprint (some r) ≡ true
    → request_ok p x (some r) ≡ false
unfolding request_ok
request_ok-empty p x r t formed empty h =
    let away = not_empty x formed in
    let first : r.config_fingerprint ≡ t = ground (arith, eq_iff r.config_fingerprint t) in
    let second : t ≡ "" = ground (arith, eq_iff t "") in
    let away' : str_eq r.config_fingerprint x ≡ false = rw (first ∙ second) away in ground arith

pub unreadable-bound :
    (o q : Organizer) (x : String) (s : State)
    → q.provider_id ≡ o.provider_id
    → bad_fingerprint (some x) ≡ false
    → str_eq s.config_fingerprint "" ≡ true
    → is_some s.retry_request ≡ true
    → Valid o.provider_id s
    → read_state q (write_state o (record s { config_fingerprint = x }))
      ≡ err organizer_state_invalid
unfolding read_state state_ok
unreadable-bound o q x s same_id formed empty pending (a, b, c) =
    elim (Option-cases s.retry_request) [
      | inl e ↦ cc
      | inr (r, e) ↦
          let c' : request_ok o.provider_id s.config_fingerprint (some r) ≡ true =
            subst (λ k. request_ok o.provider_id s.config_fingerprint k ≡ true) e c in
          let bad = request_ok-empty o.provider_id x r s.config_fingerprint formed empty c' in
          rw (same_id, e, bad) (ground arith)
    ]

run-unreadable :
    (q : Organizer) (p : Option Provider) (r : Bool) (a : Answer) (now : ℕ) (f : File)
    → read_state q f ≡ err organizer_state_invalid
    → ((run q p r a now f).called ≡ false)
      × ((run q p r a now f).result ≡ err organizer_state_invalid)
unfolding run run_read
run-unreadable q p r a now f e = rw e (refl, refl)

file-bound :
    (o : Organizer) (x : String) (f : File) (s : State)
    → str_eq s.config_fingerprint "" ≡ true
    → (recover_state o false (some x) f s).file
      ≡ write_state o (record s { config_fingerprint = x })
unfolding recover_state
file-bound o x f s empty = rw empty refl

-- A recovery of the object's own provider without evidence, on a file that reads, that gives a
-- first well-formed fingerprint while a retry request is pending, leaves a file that is refused:
-- every later run of an object of this provider fails with ORGANIZER_STATE_INVALID, uncalled.
pub recover-locks_out :
    (o q : Organizer) (p : Provider) (x : String) (f : File) (s : State) (other : Option Provider)
    (r : Bool) (a : Answer) (now : ℕ)
    → str_eq p.provider_id o.provider_id ≡ true
    → q.provider_id ≡ o.provider_id
    → bad_fingerprint (some x) ≡ false
    → fingerprint_ok o.config_fingerprint ≡ true
    → read_state o f ≡ ok s
    → binds_request false (some x) s ≡ true
    → let left = recover o p false (some x) f in
      ((run q other r a now left.file).called ≡ false)
      × ((run q other r a now left.file).result ≡ err organizer_state_invalid)
recover-locks_out o q p x f s other r a now named same_id formed fine e b =
    let empty : str_eq s.config_fingerprint "" ≡ true = ground arith in
    let pending : is_some s.retry_request ≡ true = ground arith in
    let v = read-Valid o f s fine e in
    rw (recover-ok o p false (some x) f named formed e, file-bound o x f s empty)
      (run-unreadable q other r a now (write_state o (record s { config_fingerprint = x }))
        (unreadable-bound o q x s same_id formed empty pending v))
