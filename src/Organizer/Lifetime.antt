-- ===== src/Organizer/Lifetime.antt =====
-- Any sequence of runs, requests and recoveries of src/ei/organizer_recovery.py on one file.
use portable_external_intell.Prelude.{
  Bool, Bool-cases, Option, Result, String, ap, arith, err, false, if_elim, inl, inr, none, not, ok,
  refl, some, str_eq, subst, true, ℕ, ◌&&◌, ◌∙◌, ◌≡◌,
}
use portable_external_intell.Organizer.State.{
  File, Organizer, OrganizerError, State, fingerprint_ok, read_state, write_state,
}
use portable_external_intell.Organizer.Run.{Answer, Provider, run}
use portable_external_intell.Organizer.Request.{
  Recovered, bad_fingerprint, learned, mismatched, recover, recover_state, request_auth_retry,
  text_or, with_request,
}
use portable_external_intell.Organizer.Validity.{Valid, read-Valid}
use portable_external_intell.Organizer.Promises.{next_state, read-run}
use portable_external_intell.Organizer.Retry.{
  file-request, organizer-request, recordable, request-ok,
}
use portable_external_intell.Organizer.Binding.{
  Agreed, binding-ok, learned-provider, with_request-Valid,
}
use portable_external_intell.Organizer.Again.{read-written, recordable-Recorded}
use portable_external_intell.Organizer.Recovery.{
  binds_request, recover-ok, recover_state-Readable, recovered_state, recovered_state-Valid,
}

-- Whether the recovery would bind a pending request.
abbrev pub binds : Bool → Option String → Result OrganizerError State → Bool
binds verified given (ok s) = binds_request verified given s
binds verified given (err e) = false

-- One access of the organizer; a recovery that binds a pending request is left out.
pub data Step : Organizer → File → Organizer → File → Type 0 where
  step_run :
      (o : Organizer) (p : Option Provider) (r : Bool) (a : Answer) (now : ℕ) (f : File)
      → Step o f o (run o p r a now f).file
  step_request :
      (o : Organizer) (p : Provider) (now : ℕ) (given : Option String) (f : File)
      → Step o f
          (request_auth_retry o p now given f).organizer
          (request_auth_retry o p now given f).file
  step_recover :
      (o : Organizer) (p : Provider) (verified : Bool) (given : Option String) (f : File)
      → binds verified given (read_state o f) ≡ false
      → Step o f (recover o p verified given f).organizer (recover o p verified given f).file

pub data Steps : Organizer → File → Organizer → File → Type 0 where
  no_step : (o : Organizer) (f : File) → Steps o f o f
  then_step :
      (o : Organizer) (f : File) (q : Organizer) (g : File) (r : Organizer) (h : File)
      → Steps o f q g
      → Step q g r h
      → Steps o f r h

-- The object's fingerprint is one, and the file reads.
pub record Sound (o : Organizer) (f : File) : Type 0 where
  pub fine : fingerprint_ok o.config_fingerprint ≡ true
  pub state : State
  pub reads : read_state o f ≡ ok state

run-Sound :
    (o : Organizer) (p : Option Provider) (r : Bool) (a : Answer) (now : ℕ) (f : File)
    → Sound o f
    → Sound o (run o p r a now f).file
run-Sound o p r a now f s = record {
  fine = s.fine;
  state = next_state o p r a now s.state;
  reads = read-run o p r a now f (read-Valid o f s.state s.fine s.reads) s.reads;
}

learned-ok :
    (o : Organizer) (p : Provider) (given : Option String) (s : State)
    → Agreed o p given s
    → fingerprint_ok o.config_fingerprint ≡ true
    → fingerprint_ok s.config_fingerprint ≡ true
    → fingerprint_ok (learned o given s).config_fingerprint ≡ true
unfolding learned
learned-ok o p given s a h k =
    if_elim (λ (q : Organizer). fingerprint_ok q.config_fingerprint ≡ true)
      (not (str_eq (text_or given s.config_fingerprint) "") && str_eq s.config_fingerprint "")
      (binding-ok o p given s a k) h

written-Sound :
    (o : Organizer) (p : Provider) (now : ℕ) (given : Option String) (s : State)
    → Agreed o p given s
    → fingerprint_ok o.config_fingerprint ≡ true
    → Valid o.provider_id s
    → Sound (learned o given s) (write_state o (with_request o now given s))
written-Sound o p now given s a h v = record {
  fine = learned-ok o p given s a h v.1;
  state = with_request o now given s;
  reads =
      read-written o (learned o given s) (with_request o now given s) (learned-provider o given s)
        (with_request-Valid o p now given s a v);
}

unrecorded :
    (o : Organizer) (p : Provider) (now : ℕ) (given : Option String) (f : File) (s : State)
    → read_state o f ≡ ok s
    → recordable o p given s ≡ false
    → ((request_auth_retry o p now given f).organizer ≡ o)
      × ((request_auth_retry o p now given f).file ≡ f)
unrecorded o p now given f s e n =
    let same_as = request-ok o p now given f e in
    (
      ap (λ r. r.organizer) same_as ∙ organizer-request o p now given f s ∙ rw n refl,
      ap (λ r. r.file) same_as ∙ file-request o p now given f s ∙ rw n refl,
    )

request-Sound :
    (o : Organizer) (p : Provider) (now : ℕ) (given : Option String) (f : File)
    → Sound o f
    → Sound (request_auth_retry o p now given f).organizer (request_auth_retry o p now given f).file
request-Sound o p now given f s = elim (Bool-cases (recordable o p given s.state)) [
  | inl y ↦
      let v = read-Valid o f s.state s.fine s.reads in
      let r = recordable-Recorded o p now given f s.state s.reads y in
      rw (r.learned_by, r.written) (written-Sound o p now given s.state r.agreed s.fine v)
  | inr n ↦
      let same_as = unrecorded o p now given f s.state s.reads n in rw (same_as.0, same_as.1) s
]

refused-recover :
    (o : Organizer) (p : Provider) (verified : Bool) (given : Option String) (f : File)
    → (str_eq p.provider_id o.provider_id && not (bad_fingerprint given)) ≡ false
    → ((recover o p verified given f).organizer ≡ o) × ((recover o p verified given f).file ≡ f)
unfolding recover
refused-recover o p verified given f h = elim (Bool-cases (str_eq p.provider_id o.provider_id)) [
  | inl e ↦ let b : bad_fingerprint given ≡ true = ground arith in rw (e, b) (refl, refl)
  | inr e ↦ rw e (refl, refl)
]

sha256-fingerprint : (x : String) → bad_fingerprint (some x) ≡ false → fingerprint_ok x ≡ true
unfolding fingerprint_ok
sha256-fingerprint x b = ground arith

bound-ok :
    (o : Organizer) (verified : Bool) (given : Option String) (f : File) (s : State)
    → bad_fingerprint given ≡ false
    → fingerprint_ok o.config_fingerprint ≡ true
    → fingerprint_ok (recover_state o verified given f s).organizer.config_fingerprint ≡ true
unfolding recover_state
bound-ok o verified none f s b h =
    if_elim (λ (r : Recovered). fingerprint_ok r.organizer.config_fingerprint ≡ true)
      (not verified && not (mismatched none s.config_fingerprint)) h h
bound-ok o verified (some x) f s b h =
    let k = sha256-fingerprint x b in
    if_elim (λ (r : Recovered). fingerprint_ok r.organizer.config_fingerprint ≡ true)
      (not verified && not (mismatched (some x) s.config_fingerprint))
      (if_elim (λ (r : Recovered). fingerprint_ok r.organizer.config_fingerprint ≡ true)
        (true && str_eq s.config_fingerprint "") k h)
      k

recover-Sound :
    (o : Organizer) (p : Provider) (verified : Bool) (given : Option String) (f : File)
    → binds verified given (read_state o f) ≡ false
    → Sound o f
    → Sound (recover o p verified given f).organizer (recover o p verified given f).file
recover-Sound o p verified given f b s =
    elim (Bool-cases (str_eq p.provider_id o.provider_id && not (bad_fingerprint given))) [
      | inl y ↦
          let named : str_eq p.provider_id o.provider_id ≡ true = ground arith in
          let formed : bad_fingerprint given ≡ false = ground arith in
          let free : binds_request verified given s.state ≡ false =
            subst (λ r. binds verified given r ≡ false) s.reads b in
          let v = read-Valid o f s.state s.fine s.reads in
          rw (recover-ok o p verified given f named formed s.reads) (record {
            fine = bound-ok o verified given f s.state formed s.fine;
            state = recovered_state verified given s.state;
            reads =
                recover_state-Readable o verified given f s.state s.reads
                  (recovered_state-Valid o.provider_id verified given s.state formed free v);
          })
      | inr n ↦ let same_as = refused-recover o p verified given f n in rw (same_as.0, same_as.1) s
    ]

Step-Sound :
    (o : Organizer) (f : File) (q : Organizer) (g : File) → Step o f q g → Sound o f → Sound q g
Step-Sound _ _ _ _ (step_run o p r a now f) s = run-Sound o p r a now f s
Step-Sound _ _ _ _ (step_request o p now given f) s = request-Sound o p now given f s
Step-Sound _ _ _ _ (step_recover o p verified given f b) s = recover-Sound o p verified given f b s

-- An object with a well-formed fingerprint and a file that reads stay so over any sequence of
-- runs, retry requests and recoveries, where no recovery gives a first fingerprint without
-- evidence while a request is pending.
pub Steps-Sound :
    (o : Organizer) (f : File) (q : Organizer) (g : File) → Steps o f q g → Sound o f → Sound q g
Steps-Sound _ _ _ _ (no_step o f) s = s
Steps-Sound _ _ _ _ (then_step o f q g r h before last) s =
    Step-Sound q g r h last (Steps-Sound o f q g before s)
