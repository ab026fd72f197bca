-- ===== src/Queue/Item.antt =====
-- The wire form of the queue item of src/ei/queue.py: `to_dict`, `from_dict` and their round trip.
mod Fields
unfoldable pub use Fields.*
use portable_external_intell.Prelude.{
  Bool, Bool-cases, Option, Result, String, ap₂, arith, eq_iff, err, false, if◌then◌else◌, inl, inr,
  none, not, ok, some, str_eq, true, ◌&&◌, ◌*◌, ◌-◌, ◌∙◌, ◌≡◌, ◌≢◌, ◌⊎◌,
}
use portable_external_intell.Queue.State.{
  QueueState, failed, failed_needs_attention, read_state, read_state-value, state_eq, value,
}

-- `to_dict`: an item without a source pair writes no pair.
unfoldable pub encode : QueueItem → Wire
encode i =
    let absent = str_eq i.source_host_id "" && str_eq i.source_host_family "" in
    record {
      queue_id = i.queue_id;
      event_id = i.event_id;
      idempotency_key = i.idempotency_key;
      stage = i.stage;
      state = value i.state;
      attempts = i.attempts;
      created_at = i.created_at;
      next_eligible_at = i.next_eligible_at;
      source_ref = i.source_ref;
      source_hash = i.source_hash;
      host_id = i.host_id;
      session_id_hash = i.session_id_hash;
      turn_id_hash = i.turn_id_hash;
      payload_ref = i.payload_ref;
      provider_preference = i.provider_preference;
      privacy_classification = i.privacy_classification;
      lease_owner = i.lease_owner;
      lease_expires_at = i.lease_expires_at;
      last_error_code = i.last_error_code;
      source_host_id = if absent then none else some i.source_host_id;
      source_host_family = if absent then none else some i.source_host_family;
      capture_id = i.capture_id;
      validated_result_ref = i.validated_result_ref;
    }

abbrev text_or_empty : Option String → String
text_or_empty none = ""
text_or_empty (some t) = t

-- A pair of which a label is there must have both labels, and none empty.
pair_ok : Option String → Option String → Bool
pair_ok none none = true
pair_ok (some a) (some b) = not (str_eq a "") && not (str_eq b "")
pair_ok _ _ = false

item_of : Wire → QueueState → QueueItem
item_of w s = record {
  queue_id = w.queue_id;
  event_id = w.event_id;
  idempotency_key = w.idempotency_key;
  stage = w.stage;
  state = s;
  attempts = w.attempts;
  created_at = w.created_at;
  next_eligible_at = w.next_eligible_at;
  source_ref = w.source_ref;
  source_hash = w.source_hash;
  host_id = w.host_id;
  session_id_hash = w.session_id_hash;
  turn_id_hash = w.turn_id_hash;
  payload_ref = w.payload_ref;
  provider_preference = w.provider_preference;
  privacy_classification = w.privacy_classification;
  lease_owner = w.lease_owner;
  lease_expires_at = w.lease_expires_at;
  last_error_code = w.last_error_code;
  source_host_id = text_or_empty w.source_host_id;
  source_host_family = text_or_empty w.source_host_family;
  capture_id = w.capture_id;
  validated_result_ref = w.validated_result_ref;
}

-- The canonical form that is validated once more: one provider at most.
abbrev canonical : QueueItem → Wire
canonical i = encode (record i { provider_preference = head_list i.provider_preference })

checked_item : Env → QueueItem → Result QueueError QueueItem
unfolding encode
checked_item env i = if env.schema_ok (canonical i) then ok i else err queue_item_invalid

decode_state : Env → Wire → Option QueueState → Result QueueError QueueItem
unfolding item_of checked_item
decode_state env w none = err queue_item_invalid
decode_state env w (some s) = checked_item env (item_of w s)

-- `from_dict`
unfoldable pub decode : Env → Wire → Result QueueError QueueItem
unfolding pair_ok decode_state
decode env w =
    if env.schema_ok w && pair_ok w.source_host_id w.source_host_family
    then decode_state env w (read_state w.state)
    else err queue_item_invalid

-- What `from_dict` makes of the state of a stored item.
abbrev pub settled : QueueItem → QueueItem
settled i = record i { state = if state_eq i.state failed then failed_needs_attention else i.state }

-- A source pair that `to_dict` and `from_dict` agree on: both labels, or none.
abbrev pub HasPair : QueueItem → Type 0
HasPair i =
    ((i.source_host_id ≡ "") × (i.source_host_family ≡ ""))
    ⊎ ((i.source_host_id ≢ "") × (i.source_host_family ≢ ""))

host_id-encode :
    (i : QueueItem) → HasPair i → text_or_empty (encode i).source_host_id ≡ i.source_host_id
unfolding encode
host_id-encode i pair = ground (arith, eq_iff i.source_host_id "", eq_iff i.source_host_family "")

host_family-encode :
    (i : QueueItem) → HasPair i → text_or_empty (encode i).source_host_family ≡ i.source_host_family
unfolding encode
host_family-encode i pair =
    ground (arith, eq_iff i.source_host_id "", eq_iff i.source_host_family "")

with_labels : QueueItem → String → String → QueueItem
with_labels i a b = record i { source_host_id = a; source_host_family = b }

item_of-encode :
    (i : QueueItem) (s : QueueState) → HasPair i → item_of (encode i) s ≡ record i { state = s }
unfolding with_labels encode item_of
item_of-encode i s pair =
    ap₂ (with_labels (record i { state = s })) (host_id-encode i pair) (host_family-encode i pair)

pair_ok→HasPair :
    (i : QueueItem)
    → pair_ok (encode i).source_host_id (encode i).source_host_family ≡ true
    → HasPair i
unfolding encode pair_ok
pair_ok→HasPair i h = ground (arith, eq_iff i.source_host_id "", eq_iff i.source_host_family "")

checked_item_inv : (env : Env) (i j : QueueItem) → checked_item env i ≡ ok j → j ≡ i
unfolding checked_item
checked_item_inv env i j h = ground arith

decode_state-encode_inv :
    (env : Env) (i j : QueueItem) (s : QueueState)
    → HasPair i
    → decode_state env (encode i) (some s) ≡ ok j
    → j ≡ record i { state = s }
unfolding decode_state
decode_state-encode_inv env i j s pair h =
    checked_item_inv env (item_of (encode i) s) j h ∙ item_of-encode i s pair

-- Whatever is read back from what was written is the item, its state settled.
pub decode-encode_inv : (env : Env) (i j : QueueItem) → decode env (encode i) ≡ ok j → j ≡ settled i
unfolding decode
decode-encode_inv env i j h = elim (Bool-cases (env.schema_ok (encode i))) [
  | inr bad ↦ absurd (cc (rw (bad) at h))
  | inl good ↦ elim (Bool-cases (pair_ok (encode i).source_host_id (encode i).source_host_family)) [
    | inr bad ↦ absurd (cc (rw (good, bad) at h))
    | inl pair ↦
        decode_state-encode_inv env i j (settled i).state (pair_ok→HasPair i pair)
          (rw (read_state-value i.state) at (rw (good, pair) at h))
  ]
]
