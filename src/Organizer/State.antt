-- ===== src/Organizer/State.antt =====
-- The state that src/ei/organizer_recovery.py keeps for one organizer, the file that holds it, and the
-- delays between attempts.
use Prim.Native.Char.{code}
use Prim.Native.String.{count, slice, len}
use text.Mathlib.Text.{starts_with}
use portable_external_intell.Prelude.{
  ℕ, zero, suc, ◌+◌, ◌-◌, String, Bool, true, false, ◌&&◌, ◌||◌, Option, none, some, leb, str_eq,
  ◌==◌, if◌then◌else◌, seconds, Result, ok, err,
}

pub record Request : Type 0 where
  pub provider_id : String
  pub requested_at : ℕ
  pub config_fingerprint : String

pub record State : Type 0 where
  pub attempts : ℕ
  pub malformed_attempts : ℕ
  pub needs_action : Bool
  pub reason_code : String
  pub next_eligible_at : Option ℕ
  pub config_fingerprint : String
  pub retry_request : Option Request
  pub retry_consumed : Bool

-- A state file: none yet, no object of the expected kinds, or an object with its version and provider.
pub data File : Type 0 where
  missing unreadable : File
  saved : (schema_version : ℕ) (provider_id : String) (state : State) → File

pub data OrganizerError : Type 0 where
  organizer_state_invalid retry_attempt_invalid recovery_provider_mismatch : OrganizerError
  recovery_evidence_invalid interrupted : OrganizerError

-- The organizer object: its provider, the limit on malformed answers, and the fingerprint of the
-- configuration in use.
pub record Organizer : Type 0 where
  pub provider_id : String
  pub malformed_limit : ℕ
  pub config_fingerprint : String

reason_char : ℕ → Bool
reason_char c =
    (leb b'A' c && leb c b'Z')
    || (leb b'a' c && leb c b'z')
    || (leb b'0' c && leb c b'9')
    || c == b'_'
    || c == b'.'
    || c == b':'
    || c == b'-'

hex_char : ℕ → Bool
hex_char c = (leb b'a' c && leb c b'f') || (leb b'0' c && leb c b'9')

all_chars : (ℕ → Bool) → String → Bool
all_chars p String.[] = true
all_chars p (String.◌∷◌ c rest) = p (code c) && all_chars p rest

-- `[A-Za-z0-9_.:-]{1,96}`
unfoldable pub reason_ok : String → Bool
unfolding reason_char all_chars
reason_ok r = leb 1 (count r) && leb (count r) 96 && all_chars reason_char r

-- `sha256:[a-f0-9]{64}`
unfoldable pub sha256_ok : String → Bool
unfolding hex_char all_chars
sha256_ok f = starts_with f "sha256:" && count f == 71 && all_chars hex_char (slice f 7 (len f))

unfoldable pub fingerprint_ok : String → Bool
unfolding sha256_ok
fingerprint_ok f = str_eq f "" || sha256_ok f

unfoldable pub request_ok : String → String → Option Request → Bool
unfolding fingerprint_ok
request_ok provider fingerprint none = true
request_ok provider fingerprint (some r) =
    str_eq r.provider_id provider
    && fingerprint_ok r.config_fingerprint
    && str_eq r.config_fingerprint fingerprint

-- The checks of `_read` on an object.
unfoldable pub state_ok : String → State → Bool
unfolding request_ok fingerprint_ok reason_ok
state_ok provider s =
    reason_ok s.reason_code
    && fingerprint_ok s.config_fingerprint
    && request_ok provider s.config_fingerprint s.retry_request

abbrev pub initial : Organizer → State
initial o = record {
  attempts = 0;
  malformed_attempts = 0;
  needs_action = false;
  reason_code = "READY";
  next_eligible_at = none;
  config_fingerprint = o.config_fingerprint;
  retry_request = none;
  retry_consumed = false;
}

-- `_read`
unfoldable pub read_state : Organizer → File → Result OrganizerError State
read_state o missing = ok (initial o)
read_state o unreadable = err organizer_state_invalid
read_state o (saved version provider s) =
    if version == 1 && str_eq provider o.provider_id && state_ok o.provider_id s
    then ok s
    else err organizer_state_invalid

-- `self.storage._write(state)`
abbrev pub write_state : Organizer → State → File
write_state o s = saved 1 o.provider_id s

-- The delay behind the attempt of this number, in seconds.
unfoldable pub backoff : ℕ → ℕ
backoff zero = 300
backoff (suc zero) = 900
backoff (suc (suc zero)) = 3600
backoff (suc (suc (suc n))) = 21600

abbrev later_of : ℕ → ℕ → ℕ
later_of a b = if leb a b then b else a

unfoldable pub next_retry : ℕ → ℕ → Option ℕ → ℕ
unfolding backoff
next_retry now attempt none = now + seconds (backoff (attempt - 1))
next_retry now attempt (some deadline) = later_of (now + seconds (backoff (attempt - 1))) deadline
