-- ===== src/Queue/State.antt =====
-- The states of a queue item and the transition table of src/ei/queue.py.
use portable_external_intell.Prelude.{
  ℕ, String, ◌≡◌, refl, Bool, false, ◌||◌, Option, none, some, List, [], ◌∷◌, ◌==◌, str_eq,
  if◌then◌else◌,
}

pub data QueueState : Type 0 where
  ready in_progress deferred failed_retryable failed_needs_attention yes_curating : QueueState
  no_discarded done failed quarantined : QueueState

-- The wire value of a state.
unfoldable pub value : QueueState → String
value ready = "READY"
value in_progress = "IN_PROGRESS"
value deferred = "DEFERRED"
value failed_retryable = "FAILED_RETRYABLE"
value failed_needs_attention = "FAILED_NEEDS_ATTENTION"
value yes_curating = "YES_CURATING"
value no_discarded = "NO_DISCARDED"
value done = "DONE"
value failed = "FAILED"
value quarantined = "QUARANTINED"

-- `QueueState(text)`; the alias DEFERRED_QUOTA has the value DEFERRED.
unfoldable pub from_value : String → Option QueueState
from_value text =
    if str_eq text "READY"
    then some ready
    else if str_eq text "IN_PROGRESS"
    then some in_progress
    else if str_eq text "DEFERRED"
    then some deferred
    else if str_eq text "FAILED_RETRYABLE"
    then some failed_retryable
    else if str_eq text "FAILED_NEEDS_ATTENTION"
    then some failed_needs_attention
    else if str_eq text "YES_CURATING"
    then some yes_curating
    else if str_eq text "NO_DISCARDED"
    then some no_discarded
    else if str_eq text "DONE"
    then some done
    else if str_eq text "FAILED"
    then some failed
    else if str_eq text "QUARANTINED"
    then some quarantined
    else none

-- The state that `from_dict` reads: two legacy values are mapped on.
unfoldable pub read_state : String → Option QueueState
unfolding from_value
read_state text =
    if str_eq text "DEFERRED_QUOTA"
    then some deferred
    else if str_eq text "FAILED"
    then some failed_needs_attention
    else from_value text

-- The state that a caller of `transition_queue_item` asks for.
unfoldable pub target_state : String → Option QueueState
unfolding from_value
target_state text =
    if str_eq text "DEFERRED_QUOTA"
    then some deferred
    else if str_eq text "FAILED"
    then some failed_retryable
    else from_value text

abbrev pub number : QueueState → ℕ
number ready = 0
number in_progress = 1
number deferred = 2
number failed_retryable = 3
number failed_needs_attention = 4
number yes_curating = 5
number no_discarded = 6
number done = 7
number failed = 8
number quarantined = 9

abbrev pub state_eq : QueueState → QueueState → Bool
state_eq s t = number s == number t

-- `s in states`
abbrev pub mem_state : QueueState → List QueueState → Bool
mem_state s [] = false
mem_state s (t ∷ ts) = state_eq t s || mem_state s ts

abbrev pub terminal : List QueueState
terminal = no_discarded ∷ done ∷ failed_needs_attention ∷ failed ∷ quarantined ∷ []

unfoldable pub allowed_transitions : QueueState → List QueueState
allowed_transitions ready =
    in_progress ∷ deferred ∷ yes_curating ∷ no_discarded ∷ failed_retryable ∷ failed_needs_attention
    ∷ quarantined ∷ []
allowed_transitions deferred =
    in_progress ∷ yes_curating ∷ no_discarded ∷ failed_retryable ∷ failed_needs_attention
    ∷ quarantined ∷ []
allowed_transitions in_progress =
    ready ∷ deferred ∷ yes_curating ∷ no_discarded ∷ done ∷ failed_retryable
    ∷ failed_needs_attention ∷ quarantined ∷ []
allowed_transitions failed_retryable =
    ready ∷ in_progress ∷ deferred ∷ failed_needs_attention ∷ quarantined ∷ []
allowed_transitions failed_needs_attention = ready ∷ quarantined ∷ []
allowed_transitions yes_curating =
    ready ∷ deferred ∷ done ∷ failed_retryable ∷ failed_needs_attention ∷ quarantined ∷ []
allowed_transitions no_discarded = []
allowed_transitions done = []
allowed_transitions failed = ready ∷ quarantined ∷ []
allowed_transitions quarantined = []

-- A stored value is read back as its state, but for the legacy FAILED, which needs attention.
pub read_state-value :
    (s : QueueState)
    → read_state (value s) ≡ some (if state_eq s failed then failed_needs_attention else s)
unfolding read_state value
read_state-value ready = refl
read_state-value _ = refl

pub target_state-value :
    (s : QueueState)
    → target_state (value s) ≡ some (if state_eq s failed then failed_retryable else s)
unfolding target_state value
target_state-value ready = refl
target_state-value _ = refl
