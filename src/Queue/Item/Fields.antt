-- ===== src/Queue/Item/Fields.antt =====
-- The fields of the queue item of src/ei/queue.py and of its wire form, and what both are read and written by.
-- Times are instants; the references of src/ei/spool.py are records of the same fields.
use portable_external_intell.Prelude.{
  Bool, List, Option, String, [], false, if◌then◌else◌, none, not, opt_eq, some, str_eq, true, ℕ,
  ◌&&◌, ◌==◌, ◌∷◌,
}
use portable_external_intell.Queue.State.{QueueState, state_eq}

pub record SpoolRef : Type 0 where
  pub spool_id : String
  pub content_hash : String
  pub classification : String
  pub created_at : ℕ
  pub expires_at : ℕ
  pub key_id : Option String
  pub encrypted : Bool
  pub purpose : String

abbrev bool_eq : Bool → Bool → Bool
bool_eq a b = if a then b else not b

-- `==` of the frozen dataclass: field by field.
unfoldable pub ref_eq : SpoolRef → SpoolRef → Bool
ref_eq a b =
    str_eq a.spool_id b.spool_id
    && str_eq a.content_hash b.content_hash
    && str_eq a.classification b.classification
    && a.created_at == b.created_at
    && a.expires_at == b.expires_at
    && opt_eq str_eq a.key_id b.key_id
    && bool_eq a.encrypted b.encrypted
    && str_eq a.purpose b.purpose

pub record QueueItem : Type 0 where
  pub queue_id : String
  pub event_id : String
  pub idempotency_key : String
  pub stage : String
  pub state : QueueState
  pub attempts : ℕ
  pub created_at : ℕ
  pub next_eligible_at : Option ℕ
  pub source_ref : Option String
  pub source_hash : String
  pub host_id : String
  pub session_id_hash : String
  pub turn_id_hash : String
  pub payload_ref : Option SpoolRef
  pub provider_preference : List String
  pub privacy_classification : String
  pub lease_owner : Option String
  pub lease_expires_at : Option ℕ
  pub last_error_code : Option String
  pub source_host_id : String
  pub source_host_family : String
  pub capture_id : Option String
  pub validated_result_ref : Option SpoolRef

abbrev texts_eq : List String → List String → Bool
texts_eq [] [] = true
texts_eq (x ∷ xs) (y ∷ ys) = str_eq x y && texts_eq xs ys
texts_eq _ _ = false

unfoldable pub item_eq : QueueItem → QueueItem → Bool
unfolding ref_eq
item_eq a b =
    str_eq a.queue_id b.queue_id
    && str_eq a.event_id b.event_id
    && str_eq a.idempotency_key b.idempotency_key
    && str_eq a.stage b.stage
    && state_eq a.state b.state
    && a.attempts == b.attempts
    && a.created_at == b.created_at
    && opt_eq (λ x y. x == y) a.next_eligible_at b.next_eligible_at
    && opt_eq str_eq a.source_ref b.source_ref
    && str_eq a.source_hash b.source_hash
    && str_eq a.host_id b.host_id
    && str_eq a.session_id_hash b.session_id_hash
    && str_eq a.turn_id_hash b.turn_id_hash
    && opt_eq ref_eq a.payload_ref b.payload_ref
    && texts_eq a.provider_preference b.provider_preference
    && str_eq a.privacy_classification b.privacy_classification
    && opt_eq str_eq a.lease_owner b.lease_owner
    && opt_eq (λ x y. x == y) a.lease_expires_at b.lease_expires_at
    && opt_eq str_eq a.last_error_code b.last_error_code
    && str_eq a.source_host_id b.source_host_id
    && str_eq a.source_host_family b.source_host_family
    && opt_eq str_eq a.capture_id b.capture_id
    && opt_eq ref_eq a.validated_result_ref b.validated_result_ref

-- The JSON object of an item: the state is text, and the host pair may be absent.
pub record Wire : Type 0 where
  pub queue_id : String
  pub event_id : String
  pub idempotency_key : String
  pub stage : String
  pub state : String
  pub attempts : ℕ
  pub created_at : ℕ
  pub next_eligible_at : Option ℕ
  pub source_ref : Option String
  pub source_hash : String
  pub host_id : String
  pub session_id_hash : String
  pub turn_id_hash : String
  pub payload_ref : Option SpoolRef
  pub provider_preference : List String
  pub privacy_classification : String
  pub lease_owner : Option String
  pub lease_expires_at : Option ℕ
  pub last_error_code : Option String
  pub source_host_id : Option String
  pub source_host_family : Option String
  pub capture_id : Option String
  pub validated_result_ref : Option SpoolRef

pub data QueueError : Type 0 where
  queue_item_invalid queue_item_corrupt queue_item_not_found queue_transition_invalid : QueueError
  queue_idempotency_collision queue_terminal_cleanup_binding_invalid : QueueError
  queue_worker_invalid queue_lease_invalid queue_result_purpose_invalid : QueueError
  queue_result_expiry_invalid queue_result_claim_changed queue_source_host_pair_required :
      QueueError
  queue_retry_time_unknown emergency_spool_full queue_state_unknown spool_error queue_id_invalid :
      QueueError

-- What the operations take from the settings, from other modules and from the libraries.
pub record Organizer : Type 0 where
  pub status : String
  pub provider_id : Option String

pub record Env : Type 0 where
  pub organizer : Option Organizer
  pub provider_order : List String
  -- `validate_schema("queue-item", …)`
  pub schema_ok : Wire → Bool
  -- the SHA-256 tag behind `queue_`, of the event, the key and the host
  pub new_queue_id : String → String → String → String
  -- whether `delete_spool` of a body raises
  pub delete_fails : String → Bool

abbrev pub head_list : List String → List String
head_list [] = []
head_list (x ∷ xs) = x ∷ []

abbrev pub nonempty : List String → List String
nonempty [] = []
nonempty (x ∷ xs) = let rest = nonempty xs in if str_eq x "" then rest else x ∷ rest

organizer_preference : Organizer → List String
organizer_preference o =
    if str_eq o.status "READY" then elim o.provider_id [ none ↦ [] | some p ↦ p ∷ [] ] else []

unfoldable pub provider_preference_of : Env → Option (List String) → List String
unfolding organizer_preference
provider_preference_of env explicit = elim env.organizer [
  | some o ↦ organizer_preference o
  | none ↦ head_list (nonempty (elim explicit [ none ↦ env.provider_order | some l ↦ l ]))
]
