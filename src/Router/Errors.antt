-- ===== src/Router/Errors.antt =====
-- `classify_provider_error` and `next_eligible_at` of src/ei/inference/errors.py. Instants are microseconds.
use text.Mathlib.Text.{find?}
use portable_external_intell.Prelude.{
  Bool, List, Option, String, [], arith, false, if◌then◌else◌, is_some, leb, none, refl, seconds,
  some, subst, suc, true, zero, ℕ, ◌+◌, ◌==◌, ◌||◌, ◌∷◌, ◌≡◌, ◌≤◌,
}

pub data ErrorKind : Type 0 where
  auth_failed quota_exhausted rate_limited provider_timeout malformed_response : ErrorKind
  provider_unavailable : ErrorKind

-- The statuses that the classification gives.
pub data ErrorStatus : Type 0 where
  disabled deferred failed : ErrorStatus

pub record Classified : Type 0 where
  pub status : ErrorStatus
  pub error_code : ErrorKind
  pub retry_after_seconds : Option ℕ
  pub next_eligible : Option ℕ
  pub attempt : ℕ

-- `BACKOFF_SECONDS[min(attempt, 3)]`
unfoldable pub backoff_seconds : ℕ → ℕ
backoff_seconds zero = 300
backoff_seconds (suc zero) = 900
backoff_seconds (suc (suc zero)) = 3600
backoff_seconds (suc (suc (suc n))) = 21600

abbrev pub larger : ℕ → ℕ → ℕ
larger a b = if leb a b then b else a

unfoldable pub delay_seconds : Option ℕ → ℕ → ℕ
delay_seconds none attempt = backoff_seconds attempt
delay_seconds (some s) attempt = larger s (backoff_seconds attempt)

-- `next_eligible_at`
unfoldable pub next_eligible_at : ℕ → Option ℕ → ℕ → ℕ
next_eligible_at now retry_after attempt = now + seconds (delay_seconds retry_after attempt)

-- `any(marker in text for marker in markers)`
unfoldable pub mentions : String → List String → Bool
mentions text [] = false
mentions text (m ∷ ms) = is_some (find? text m) || mentions text ms

abbrev pub auth_markers : List String
auth_markers =
    "unauthorized" ∷ "authentication" ∷ "invalid api key" ∷ "permission denied" ∷ "forbidden" ∷ []

abbrev pub quota_markers : List String
quota_markers =
    "quota" ∷ "resource exhausted" ∷ "credits exhausted" ∷ "usage limit" ∷ "monthly limit"
    ∷ "daily limit" ∷ []

abbrev pub rate_markers : List String
rate_markers = "rate limit" ∷ "too many requests" ∷ "retry-after" ∷ "temporarily throttled" ∷ []

abbrev pub timeout_markers : List String
timeout_markers = "timed out" ∷ "timeout" ∷ "deadline exceeded" ∷ []

abbrev pub malformed_markers : List String
malformed_markers =
    "json" ∷ "malformed" ∷ "parse error" ∷ "invalid response" ∷ "unexpected token" ∷ []

-- A code of a process that a signal ended is below zero, and none of those that are tested.
abbrev pub is_code : Option ℕ → ℕ → Bool
is_code none n = false
is_code (some c) n = c == n

-- The kind of an error, by its exit code and the text.
unfoldable pub error_kind : Option ℕ → String → ErrorKind
error_kind code text =
    if is_code code 401 || is_code code 403 || mentions text auth_markers
    then auth_failed
    else if is_code code 429 || is_code code 430 || mentions text quota_markers
    then quota_exhausted
    else if mentions text rate_markers
    then rate_limited
    else if is_code code 124 || is_code code 408 || mentions text timeout_markers
    then provider_timeout
    else if mentions text malformed_markers
    then malformed_response
    else provider_unavailable

abbrev pub status_of : ErrorKind → ErrorStatus
status_of k = elim k [
  | auth_failed ↦ disabled
  | quota_exhausted ↦ deferred
  | rate_limited ↦ deferred
  | _ ↦ failed
]

abbrev pub is_deferred : ErrorStatus → Bool
is_deferred s = elim s [ deferred ↦ true | _ ↦ false ]

module _ (casefold : String → String) where
  -- `classify_provider_error`
  unfoldable pub classify_provider_error : Option ℕ → String → Option ℕ → ℕ → ℕ → Classified
  classify_provider_error code stderr retry_after now attempt =
      let kind = error_kind code (casefold stderr) in
      let waits = is_deferred (status_of kind) in
      record {
        status = status_of kind;
        error_code = kind;
        retry_after_seconds = if waits then retry_after else none;
        next_eligible = if waits then some (next_eligible_at now retry_after attempt) else none;
        attempt = attempt + 1;
      }

-- The seconds that a provider asked for, if it did.
abbrev pub asked : Option ℕ → ℕ
asked none = 0
asked (some s) = s

backoff-bounds : (n : ℕ) → (300 ≤ backoff_seconds n) × (backoff_seconds n ≤ 21600)
unfolding backoff_seconds
backoff-bounds zero = (omega arith, omega arith)
backoff-bounds (suc zero) = (omega arith, omega arith)
backoff-bounds (suc (suc zero)) = (omega arith, omega arith)
backoff-bounds (suc (suc (suc n))) = (omega arith, omega arith)

same_some : (a b : ℕ) → some a ≡ some b → a ≡ b
same_some a b h = cc

larger-first : (now a b : ℕ) → now + seconds a ≤ now + seconds (larger a b)
larger-first now a b = ground arith

-- A provider is eligible again no earlier than five minutes and than it asked, and without its asking no
-- later than six hours.
next_eligible_at-bounds :
    (now : ℕ) (retry_after : Option ℕ) (attempt : ℕ)
    → (now + seconds 300 ≤ next_eligible_at now retry_after attempt)
      × (now + seconds (asked retry_after) ≤ next_eligible_at now retry_after attempt)
      × (retry_after ≡ none → next_eligible_at now retry_after attempt ≤ now + seconds 21600)
unfolding next_eligible_at delay_seconds
next_eligible_at-bounds now none attempt =
    let bounds = backoff-bounds attempt in
    (omega (arith, bounds.0), omega arith, λ e. omega (arith, bounds.1))
next_eligible_at-bounds now (some t) attempt =
    let bounds = backoff-bounds attempt in
    (ground (arith, bounds.0), larger-first now t (backoff_seconds attempt), λ e. cc)

waiting_time :
    (waits : Bool) (n t : ℕ) → (if waits then some n else none) ≡ some t → (waits ≡ true) × (n ≡ t)
waiting_time true n t h = (refl, same_some n t h)
waiting_time false n t h = cc

-- A classified error that names a time is deferred, and the time is no earlier than five minutes from now, and
-- no earlier than the provider asked for.
pub classify-waits :
    (casefold : String → String) (code : Option ℕ) (stderr : String) (retry_after : Option ℕ)
    (now attempt t : ℕ)
    → (classify_provider_error casefold code stderr retry_after now attempt).next_eligible ≡ some t
    → (is_deferred (classify_provider_error casefold code stderr retry_after now attempt).status
        ≡ true)
      × (now + seconds 300 ≤ t)
      × (now + seconds (asked retry_after) ≤ t)
unfolding classify_provider_error
classify-waits casefold code stderr retry_after now attempt t h =
    let (waits, same) =
      waiting_time (is_deferred (status_of (error_kind code (casefold stderr))))
        (next_eligible_at now retry_after attempt) t h in
    let (five, its_own, most) = next_eligible_at-bounds now retry_after attempt in
    (
      waits,
      subst (λ x. now + seconds 300 ≤ x) same five,
      subst (λ x. now + seconds (asked retry_after) ≤ x) same its_own,
    )
