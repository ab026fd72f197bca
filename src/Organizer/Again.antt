-- ===== src/Organizer/Again.antt =====
-- `request_auth_retry` of src/ei/organizer_recovery.py, called again.
use portable_external_intell.Prelude.{
  Option, Result-cases, String, ap, arith, eq_refl, err, false, inl, inr, none, ok, refl, some, sym,
  true, ℕ, ◌∙◌, ◌≡◌,
}
use portable_external_intell.Organizer.State.{
  File, Organizer, OrganizerError, Request, State, fingerprint_ok, read_state, write_state,
}
use portable_external_intell.Organizer.Run.{Provider}
use portable_external_intell.Organizer.Request.{
  learned, objection, repeated, reply_of, request_auth_retry, request_read, retry_request_result,
  stale_request, with_request,
}
use portable_external_intell.Organizer.Validity.{Valid, Valid-state_ok, read-Valid}
use portable_external_intell.Organizer.Retry.{
  answered, answered-request, file-request, organizer-request, recordable, request-ok,
}
use portable_external_intell.Organizer.Binding.{
  Agreed, Agreed-no_objection, bound_request, learned-provider, no_objection-Agreed,
  request-with_request, still-Agreed, with_request-Valid,
}

pub read-written :
    (o q : Organizer) (s : State)
    → q.provider_id ≡ o.provider_id
    → Valid o.provider_id s
    → read_state q (write_state o s) ≡ ok s
unfolding read_state
read-written o q s same_id v =
    rw (same_id, eq_refl o.provider_id, Valid-state_ok o.provider_id s v) refl

request-unread :
    (o : Organizer) (p : Provider) (now : ℕ) (given : Option String) (f : File) {x : OrganizerError}
    → read_state o f ≡ err x
    → answered (request_auth_retry o p now given f) ≡ false
unfolding request_auth_retry request_read
request-unread o p now given f e = rw e refl

-- A request that is recorded: what it was recorded on, and what it leaves.
pub record Recorded (o : Organizer) (p : Provider) (now : ℕ) (given : Option String) (f : File)
    (s : State) : Type 0 where
  pub readable : read_state o f ≡ ok s
  pub agreed : Agreed o p given s
  pub learned_by : (request_auth_retry o p now given f).organizer ≡ learned o given s
  pub written :
      (request_auth_retry o p now given f).file ≡ write_state o (with_request o now given s)

pub recordable-Recorded :
    (o : Organizer) (p : Provider) (now : ℕ) (given : Option String) (f : File) (s : State)
    → read_state o f ≡ ok s
    → recordable o p given s ≡ true
    → Recorded o p now given f s
recordable-Recorded o p now given f s e y = record {
  readable = e;
  agreed = no_objection-Agreed o p given s (ground arith);
  learned_by =
      ap (λ r. r.organizer) (request-ok o p now given f e)
      ∙ organizer-request o p now given f s
      ∙ rw y refl;
  written =
      ap (λ r. r.file) (request-ok o p now given f e) ∙ file-request o p now given f s ∙ rw y refl;
}

pub answered-Recorded :
    (o : Organizer) (p : Provider) (now : ℕ) (given : Option String) (f : File)
    → answered (request_auth_retry o p now given f) ≡ true
    → (s : State) × Recorded o p now given f s
answered-Recorded o p now given f h = elim (Result-cases (read_state o f)) [
  | inl (s, e) ↦
      let y =
        sym (answered-request o p now given f s)
        ∙ sym (ap answered (request-ok o p now given f e))
        ∙ h in
      (s, recordable-Recorded o p now given f s e y)
  | inr (x, e) ↦ let no_reply = request-unread o p now given f e in cc
]

-- With a request pending and no objection, the answer is that it was made already.
pending :
    (q : Organizer) (p : Provider) (later : ℕ) (given : Option String) (f : File) (t : State)
    {r : Request}
    → objection q p given t ≡ none
    → t.retry_request ≡ some r
    → ((retry_request_result q p later given true f t).reply ≡ repeated given t)
      × ((retry_request_result q p later given true f t).file ≡ f)
unfolding retry_request_result
pending q p later given f t a e = rw (a, e, retry_request_result) (refl, refl)

not_stale :
    (o : Organizer) (now : ℕ) (given : Option String) (s : State)
    → stale_request given (some (bound_request o now given s)) ≡ false
not_stale o now none s = refl
not_stale o now (some f) s = rw (eq_refl f) refl

repeated-already :
    (given : Option String) (t : State)
    → stale_request given t.retry_request ≡ false
    → (repeated given t).reason_code ≡ "AUTH_RETRY_ALREADY_REQUESTED"
unfolding repeated reply_of
repeated-already given t h = rw h refl

module _ (o : Organizer) (p : Provider) (now later : ℕ) (given : Option String) (f : File)
    (s : State) where
  again_read :
      fingerprint_ok o.config_fingerprint ≡ true
      → Recorded o p now given f s
      → read_state (learned o given s) (write_state o (with_request o now given s))
        ≡ ok (with_request o now given s)
  again_read fine r =
      read-written o (learned o given s) (with_request o now given s) (learned-provider o given s)
        (with_request-Valid o p now given s r.agreed (read-Valid o f s fine r.readable))

  again_pending :
      Recorded o p now given f s
      → let file = write_state o (with_request o now given s) in
        let result =
          retry_request_result
            (learned o given s)
            p
            later
            given
            true
            file
            (with_request o now given s) in
        (result.reply ≡ repeated given (with_request o now given s)) × (result.file ≡ file)
  again_pending r =
      pending (learned o given s) p later given (write_state o (with_request o now given s))
        (with_request o now given s)
        (Agreed-no_objection (learned o given s) p given (with_request o now given s)
          (still-Agreed o p now given s r.agreed))
        (request-with_request o now given s)

  already :
      (repeated given (with_request o now given s)).reason_code ≡ "AUTH_RETRY_ALREADY_REQUESTED"
  already =
      repeated-already given (with_request o now given s)
        (ap (stale_request given) (request-with_request o now given s) ∙ not_stale o now given s)

-- With a well-formed fingerprint in the object, a request that was answered as recorded is
-- recorded once: made again at any time, with what the object has learned, it is answered as made
-- already and leaves the file as it is.
pub request-again :
    (o : Organizer) (p : Provider) (now later : ℕ) (given : Option String) (f : File)
    → fingerprint_ok o.config_fingerprint ≡ true
    → answered (request_auth_retry o p now given f) ≡ true
    → let r = request_auth_retry o p now given f in
      let again = request_auth_retry r.organizer p later given r.file in
      (again.reply.reason_code ≡ "AUTH_RETRY_ALREADY_REQUESTED") × (again.file ≡ r.file)
request-again o p now later given f fine h =
    let (s, r) = answered-Recorded o p now given f h in
    let e =
      request-ok (learned o given s) p later given (write_state o (with_request o now given s))
        (again_read o p now later given f s fine r) in
    let both = again_pending o p now later given f s r in
    rw (r.learned_by, r.written, e, both.0, both.1) (already o p now later given f s, refl)
