-- ===== src/Organizer/Request.antt =====
-- `request_auth_retry`, `preview_auth_retry` and `recover` of src/ei/organizer_recovery.py.
use portable_external_intell.Prelude.{
  ℕ, String, Bool, true, false, not, ◌&&◌, Option, none, some, str_eq, if◌then◌else◌, is_some,
  Result, ok, err,
}
use portable_external_intell.Organizer.State.{
  State, File, Request, Organizer, OrganizerError, recovery_provider_mismatch,
  recovery_evidence_invalid, sha256_ok, read_state, write_state,
}
use portable_external_intell.Organizer.Run.{Provider, probeable}

pub record Reply : Type 0 where
  pub status : String
  pub reason_code : String
  pub next_eligible_at : Option ℕ

-- What a call leaves: the reply, the object, whose fingerprint it may have learned, and the file.
pub record Requested : Type 0 where
  pub reply : Reply
  pub organizer : Organizer
  pub file : File

unfoldable pub reply_of : String → String → State → Reply
reply_of status reason s = record {
  status = status;
  reason_code = reason;
  next_eligible_at = s.next_eligible_at;
}

abbrev pub text_or : Option String → String → String
text_or none d = d
text_or (some t) d = t

abbrev pub bad_fingerprint : Option String → Bool
bad_fingerprint none = false
bad_fingerprint (some f) = not (sha256_ok f)

-- A given fingerprint that differs from a saved one.
abbrev pub mismatched : Option String → String → Bool
mismatched none saved = false
mismatched (some f) saved = not (str_eq saved "") && not (str_eq f saved)

abbrev pub stale_request : Option String → Option Request → Bool
stale_request none r = false
stale_request (some f) none = false
stale_request (some f) (some r) = not (str_eq r.config_fingerprint f)

-- The state with the request; a first binding is learned, and the hold itself stays as it is.
unfoldable pub with_request : Organizer → ℕ → Option String → State → State
with_request o now given s =
    let binding = text_or given s.config_fingerprint in
    record s {
      retry_request = some (record {
        provider_id = o.provider_id;
        requested_at = now;
        config_fingerprint = binding;
      });
      config_fingerprint =
          if not (str_eq binding "") && str_eq s.config_fingerprint ""
          then binding
          else s.config_fingerprint;
    }

unfoldable pub learned : Organizer → Option String → State → Organizer
learned o given s =
    let binding = text_or given s.config_fingerprint in
    if not (str_eq binding "") && str_eq s.config_fingerprint ""
    then record o { config_fingerprint = binding }
    else o

-- The checks on the provider and the fingerprint; `none` is no objection.
unfoldable pub objection : Organizer → Provider → Option String → State → Option Reply
unfolding reply_of
objection o p given s =
    if not (str_eq p.provider_id o.provider_id)
    then some (reply_of "UNAVAILABLE" "ORGANIZER_PROVIDER_MISMATCH" s)
    else if not p.enabled
    then some (reply_of "DISABLED" "PROVIDER_DISABLED" s)
    else if bad_fingerprint given
    then some (reply_of "UNAVAILABLE" "ORGANIZER_BINDING_INVALID" s)
    else if not (str_eq s.config_fingerprint "") && not (is_some given)
    then some (reply_of "UNAVAILABLE" "ORGANIZER_BINDING_UNAVAILABLE" s)
    else if mismatched given s.config_fingerprint
    then some (reply_of "UNAVAILABLE" "ORGANIZER_BINDING_MISMATCH" s)
    else none

unfoldable pub repeated : Option String → State → Reply
unfolding reply_of
repeated given s =
    if stale_request given s.retry_request
    then reply_of "UNAVAILABLE" "ORGANIZER_BINDING_MISMATCH" s
    else reply_of "ALREADY_REQUESTED" "AUTH_RETRY_ALREADY_REQUESTED" s

unfoldable pub no_action : State → Reply
unfolding reply_of
no_action s =
    reply_of "NO_ACTION"
      (if not s.needs_action then "ORGANIZER_READY" else "AUTH_RETRY_NOT_APPLICABLE") s

-- `_retry_request_result`
unfoldable pub retry_request_result :
    Organizer → Provider → ℕ → Option String → Bool → File → State → Requested
unfolding reply_of
retry_request_result o p now given persist f s = elim (objection o p given s) [
  | some r ↦ record { reply = r; organizer = o; file = f }
  | none ↦
      if is_some s.retry_request
      then record { reply = repeated given s; organizer = o; file = f }
      else if not (s.needs_action && probeable s)
      then record { reply = no_action s; organizer = o; file = f }
      else record {
        reply = reply_of "RETRY_REQUESTED" "AUTH_RETRY_REQUESTED" s;
        organizer = if persist then learned o given s else o;
        file = if persist then write_state o (with_request o now given s) else f;
      }
]

abbrev unavailable : String → Organizer → File → Requested
unavailable reason o f = record {
  reply = record { status = "UNAVAILABLE"; reason_code = reason; next_eligible_at = none };
  organizer = o;
  file = f;
}

unfoldable pub request_read :
    Organizer
    → Provider
    → ℕ
    → Option String
    → Bool
    → String
    → File
    → Result OrganizerError State
    → Requested
unfolding retry_request_result
request_read o p now given persist reason f (ok s) = retry_request_result o p now given persist f s
request_read o p now given persist reason f (err e) = unavailable reason o f

unfoldable pub request_auth_retry : Organizer → Provider → ℕ → Option String → File → Requested
unfolding request_read
request_auth_retry o p now given f =
    request_read o p now given true "ORGANIZER_STATE_INVALID" f (read_state o f)

unfoldable pub preview_auth_retry : Organizer → Provider → ℕ → Option String → File → Requested
unfolding request_read
preview_auth_retry o p now given f =
    request_read o p now given false "ORGANIZER_STATE_UNAVAILABLE" f (read_state o f)

pub record Recovered : Type 0 where
  pub result : Result OrganizerError Bool
  pub organizer : Organizer
  pub file : File

-- The hold is lifted.
unfoldable pub lifted : Bool → Option String → State → State
lifted verified given s = record s {
  needs_action = false;
  next_eligible_at = none;
  attempts = 0;
  malformed_attempts = 0;
  reason_code = if verified then "AUTH_VERIFIED" else "CONFIG_CHANGED_RETRY";
  retry_request = none;
  retry_consumed = false;
  config_fingerprint = text_or given s.config_fingerprint;
}

abbrev pub bind_organizer : Organizer → Option String → Organizer
bind_organizer o none = o
bind_organizer o (some f) = record o { config_fingerprint = f }

unfoldable pub recover_state : Organizer → Bool → Option String → File → State → Recovered
unfolding lifted
recover_state o verified given f s =
    if not verified && not (mismatched given s.config_fingerprint)
    then (if is_some given && str_eq s.config_fingerprint ""
        then record {
          result = ok false;
          organizer = bind_organizer o given;
          file =
              write_state o (record s { config_fingerprint = text_or given s.config_fingerprint });
        }
        else record { result = ok false; organizer = o; file = f })
    else record {
      result = ok true;
      organizer = bind_organizer o given;
      file = write_state o (lifted verified given s);
    }

unfoldable pub recover_read :
    Organizer → Bool → Option String → File → Result OrganizerError State → Recovered
unfolding recover_state
recover_read o verified given f (ok s) = recover_state o verified given f s
recover_read o verified given f (err e) = record { result = err e; organizer = o; file = f }

unfoldable pub recover : Organizer → Provider → Bool → Option String → File → Recovered
unfolding recover_read
recover o p verified given f =
    if not (str_eq p.provider_id o.provider_id)
    then record { result = err recovery_provider_mismatch; organizer = o; file = f }
    else if bad_fingerprint given
    then record { result = err recovery_evidence_invalid; organizer = o; file = f }
    else recover_read o verified given f (read_state o f)
