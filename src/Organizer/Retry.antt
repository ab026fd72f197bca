-- ===== src/Organizer/Retry.antt =====
-- What a request to retry changes and answers, and a recovery, of src/ei/organizer_recovery.py.
use portable_external_intell.Prelude.{
  Bool, Option, Option-cases, String, arith, false, if_elim, if◌then◌else◌, inl, inr, is_some, none,
  not, ok, refl, some, str_eq, subst, true, ℕ, ◌&&◌, ◌≡◌,
}
use portable_external_intell.Organizer.State.{File, Organizer, State, read_state, write_state}
use portable_external_intell.Organizer.Run.{Provider, probeable}
use portable_external_intell.Organizer.Request.{
  Reply, Requested, bad_fingerprint, learned, mismatched, no_action, objection, preview_auth_retry,
  repeated, request_auth_retry, request_read, retry_request_result, stale_request, with_request,
}

pub request-ok :
    (o : Organizer) (p : Provider) (now : ℕ) (given : Option String) (f : File) {s : State}
    → read_state o f ≡ ok s
    → request_auth_retry o p now given f ≡ retry_request_result o p now given true f s
unfolding request_auth_retry request_read
request-ok o p now given f e = rw e refl

pub preview-ok :
    (o : Organizer) (p : Provider) (now : ℕ) (given : Option String) (f : File) {s : State}
    → read_state o f ≡ ok s
    → preview_auth_retry o p now given f ≡ retry_request_result o p now given false f s
unfolding preview_auth_retry request_read
preview-ok o p now given f e = rw e refl

-- Whether a request is recorded: nothing objects, none is pending, and the hold may be probed.
abbrev pub recordable : Organizer → Provider → Option String → State → Bool
recordable o p given s =
    not (is_some (objection o p given s))
    && not (is_some s.retry_request)
    && (s.needs_action && probeable s)

abbrev pub answered : Requested → Bool
answered r = str_eq r.reply.status "RETRY_REQUESTED"

pub organizer-request :
    (o : Organizer) (p : Provider) (now : ℕ) (given : Option String) (f : File) (s : State)
    → (retry_request_result o p now given true f s).organizer
      ≡ (if recordable o p given s then learned o given s else o)
unfolding retry_request_result
organizer-request o p now given f s = ground arith

pub file-request :
    (o : Organizer) (p : Provider) (now : ℕ) (given : Option String) (f : File) (s : State)
    → (retry_request_result o p now given true f s).file
      ≡ (if recordable o p given s then write_state o (with_request o now given s) else f)
unfolding retry_request_result
file-request o p now given f s = ground arith

abbrev says_requested : Reply → Bool
says_requested r = str_eq r.status "RETRY_REQUESTED"

abbrev Quiet : Option Reply → Type 0
Quiet none = Unit
Quiet (some r) = says_requested r ≡ false

objection-Quiet :
    (o : Organizer) (p : Provider) (given : Option String) (s : State)
    → Quiet (objection o p given s)
unfolding objection
objection-Quiet o p given s = if_elim Quiet (not (str_eq p.provider_id o.provider_id)) refl (
    if_elim Quiet (not p.enabled) refl (
      if_elim Quiet (bad_fingerprint given) refl (
        if_elim Quiet (not (str_eq s.config_fingerprint "") && not (is_some given)) refl
          (if_elim Quiet (mismatched given s.config_fingerprint) refl tt))))

repeated-quiet : (given : Option String) (s : State) → says_requested (repeated given s) ≡ false
unfolding repeated
repeated-quiet given s =
    if_elim (λ r. says_requested r ≡ false) (stale_request given s.retry_request) refl refl

no_action-quiet : (s : State) → says_requested (no_action s) ≡ false
unfolding no_action
no_action-quiet s = refl

answered-if :
    (b c : Bool) (x y z : Requested)
    → answered x ≡ false
    → answered y ≡ false
    → answered z ≡ true
    → answered (if b then x else if not c then y else z) ≡ (not b && c)
answered-if true c x y z hx hy hz = hx
answered-if false true x y z hx hy hz = hz
answered-if false false x y z hx hy hz = hy

pub answered-request :
    (o : Organizer) (p : Provider) (now : ℕ) (given : Option String) (f : File) (s : State)
    → answered (retry_request_result o p now given true f s) ≡ recordable o p given s
unfolding retry_request_result
answered-request o p now given f s = elim (Option-cases (objection o p given s)) [
  | inl e ↦
      rw (e, retry_request_result)
        (answered-if (is_some s.retry_request) (s.needs_action && probeable s) _ _ _
          (repeated-quiet given s) (no_action-quiet s) refl)
  | inr (r, e) ↦
      let a : says_requested r ≡ false = subst Quiet e (objection-Quiet o p given s) in
      rw (e, retry_request_result) a
]
