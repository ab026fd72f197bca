-- ===== src/Queue/Enqueue.antt =====
-- `enqueue_receipt` and `attach_validated_result` of src/ei/queue.py. The catalog's tag of the key and
-- the source host finds the first file with both; the reservation that it may hold for an interrupted
-- write, and the outcome of the write, are arguments.
use portable_external_intell.Prelude.{
  ℕ, String, Bool, false, ◌&&◌, ◌||◌, not, Option, none, some, List, [], ◌∷◌, str_eq, ltb,
  if◌then◌else◌, opt_eq, Result, ok, err, ◌≡◌, arith, eq_iff, lookup, Bool-cases, inl, inr, true,
  subst, sym, ◌>>=◌, ◌>>◌, guard,
}
use portable_external_intell.Queue.State.{ready, in_progress, quarantined, state_eq}
use portable_external_intell.Queue.Item.{
  SpoolRef, QueueItem, QueueError, Env, ref_eq, item_eq, encode, provider_preference_of,
  queue_item_invalid, queue_idempotency_collision, queue_source_host_pair_required,
  queue_retry_time_unknown, queue_result_purpose_invalid, queue_result_expiry_invalid,
  queue_result_claim_changed, queue_id_invalid,
}
use portable_external_intell.Queue.Directory.{
  Store, Entry, read_item, read_item-listed, store_item, queue_id_ok,
}

pub record EventFields : Type 0 where
  pub event_id : String
  pub idempotency_key : String
  pub source_ref : Option String
  pub source_hash : String
  pub host_id : String
  pub session_id_hash : String
  pub turn_id_hash : String
  pub privacy_classification : String
  pub source_host_id : String
  pub source_host_family : String

-- The fields of a hook event, which must name its source host and family.
unfoldable pub event_fields : EventFields → Result QueueError EventFields
event_fields f =
    if str_eq f.source_host_id "" || str_eq f.source_host_family ""
    then err queue_source_host_pair_required
    else ok f

-- What the catalog holds of an interrupted write of the same identifier.
pub record Reservation : Type 0 where
  pub writing : Bool
  pub created_at : Option ℕ

-- `_store` of a new item succeeds, or the emergency spool takes it under a name, or refuses it.
pub data Outcome : Type 0 where
  written : Outcome
  emergency : String → Outcome
  refused : QueueError → Outcome

unfoldable pub new_item :
    Env
    → EventFields
    → Option SpoolRef
    → Option (List String)
    → String
    → ℕ
    → Option String
    → QueueItem
new_item env f payload preference stage now capture = record {
  queue_id = env.new_queue_id f.event_id f.idempotency_key f.source_host_id;
  event_id = f.event_id;
  idempotency_key = f.idempotency_key;
  stage = stage;
  state = ready;
  attempts = 0;
  created_at = now;
  next_eligible_at = none;
  source_ref = f.source_ref;
  source_hash = f.source_hash;
  host_id = f.host_id;
  session_id_hash = f.session_id_hash;
  turn_id_hash = f.turn_id_hash;
  payload_ref = payload;
  provider_preference = provider_preference_of env preference;
  privacy_classification = f.privacy_classification;
  lease_owner = none;
  lease_expires_at = none;
  last_error_code = none;
  source_host_id = f.source_host_id;
  source_host_family = f.source_host_family;
  capture_id = capture;
  validated_result_ref = none;
}

abbrev pub same_tag : String → String → QueueItem → Bool
same_tag key host i = str_eq i.idempotency_key key && str_eq i.source_host_id host

tagged : Result QueueError QueueItem → String → String → Bool
tagged (ok i) key host = same_tag key host i
tagged (err e) key host = false

-- The first file of the tag.
find_tag :
    Env → String → String → List (String × Entry) → Store → Option (Result QueueError QueueItem)
unfolding tagged
find_tag env key host [] s = none
find_tag env key host ((id, e) ∷ rest) s =
    let later = find_tag env key host rest s in
    if tagged (read_item env id s) key host then some (read_item env id s) else later

unfoldable pub existing_by_source_idempotency :
    Env → String → String → Store → Option (Result QueueError QueueItem)
unfolding find_tag
existing_by_source_idempotency env key host s = find_tag env key host s.files s

pub same_tag-eq :
    (key host : String) (i : QueueItem)
    → i.idempotency_key ≡ key
    → i.source_host_id ≡ host
    → same_tag key host i ≡ true
same_tag-eq key host i k h =
    ground (arith, eq_iff i.idempotency_key key, eq_iff i.source_host_id host)

find_tag_cons :
    (env : Env) (key host j : String) (f : Entry) (l : List (String × Entry)) (s : Store)
    → find_tag env key host ((j, f) ∷ l) s ≡ none
    → (tagged (read_item env j s) key host ≡ false) × (find_tag env key host l s ≡ none)
unfolding find_tag
find_tag_cons env key host j f l s h = ground arith

-- A tag that the loop does not find is no readable file's.
find_tag-none :
    (env : Env) (key host id : String) (l : List (String × Entry)) (s : Store) (i : QueueItem)
    (e : Entry)
    → find_tag env key host l s ≡ none
    → lookup id l ≡ some e
    → read_item env id s ≡ ok i
    → same_tag key host i ≡ false
unfolding lookup tagged
find_tag-none env key host id [] s i e h m r = cc
find_tag-none env key host id ((j, f) ∷ l) s i e h m r = elim (Bool-cases (str_eq j id)) [
  | inl same ↦
      let there = subst (λ k. read_item env k s ≡ ok i) (sym ((eq_iff j id).0 same)) r in
      let (first, _) = find_tag_cons env key host j f l s h in rw there at first
  | inr other ↦
      let (_, later) = find_tag_cons env key host j f l s h in
      find_tag-none env key host id l s i e later (rw other at m) r
]

-- A key and host that nothing is found for are no readable item's.
pub existing-none :
    (env : Env) (key host id : String) (s : Store) (i : QueueItem)
    → existing_by_source_idempotency env key host s ≡ none
    → read_item env id s ≡ ok i
    → same_tag key host i ≡ false
unfolding existing_by_source_idempotency
existing-none env key host id s i h r =
    let (e, m) = read_item-listed env id s r in find_tag-none env key host id s.files s i e h m r

unfoldable pub same_identity : QueueItem → QueueItem → Bool
unfolding ref_eq
same_identity existing item =
    str_eq existing.event_id item.event_id
    && str_eq existing.source_hash item.source_hash
    && str_eq existing.host_id item.host_id
    && opt_eq str_eq existing.capture_id item.capture_id
    && opt_eq ref_eq existing.payload_ref item.payload_ref

-- The time of creation that an interrupted write had reserved is kept.
unfoldable pub reserved_item : Option Reservation → Bool → QueueItem → Result QueueError QueueItem
reserved_item none present item = ok item
reserved_item (some r) present item =
    if r.writing && not present
    then (elim r.created_at [
      | none ↦ err queue_retry_time_unknown
      | some t ↦ ok (record item { created_at = t })
    ])
    else ok item

unfoldable pub write_new : Outcome → QueueItem → Store → Result QueueError QueueItem × Store
write_new written item s = (ok item, store_item item s)
write_new (emergency name) item s =
    (ok (record item { state = quarantined; last_error_code = some name }), s)
write_new (refused e) item s = (err e, s)

unfoldable pub write_reserved :
    Outcome → Result QueueError QueueItem → Store → Result QueueError QueueItem × Store
unfolding write_new
write_reserved outcome (ok item) s = write_new outcome item s
write_reserved outcome (err e) s = (err e, s)

unfoldable pub enqueue_item :
    Env
    → Option Reservation
    → Bool
    → Outcome
    → QueueItem
    → Option (Result QueueError QueueItem)
    → Store
    → Result QueueError QueueItem × Store
unfolding same_identity reserved_item write_reserved
enqueue_item env reservation present outcome item none s =
    if queue_id_ok item.queue_id
    then write_reserved outcome (reserved_item reservation present item) s
    else (err queue_id_invalid, s)
enqueue_item env reservation present outcome item (some (err e)) s = (err e, s)
enqueue_item env reservation present outcome item (some (ok existing)) s =
    if same_identity existing item then (ok existing, s) else (err queue_idempotency_collision, s)

module _ (env : Env) (reservation : Option Reservation) (present : Bool) (outcome : Outcome) where
  unfoldable pub enqueue_valid : QueueItem → Store → Result QueueError QueueItem × Store
  unfolding enqueue_item
  enqueue_valid item s =
      if env.schema_ok (encode item)
      then enqueue_item env reservation present outcome item
          (existing_by_source_idempotency env item.idempotency_key item.source_host_id s) s
      else (err queue_item_invalid, s)

  unfoldable pub enqueue_fields :
      Result QueueError EventFields
      → Option SpoolRef
      → Option (List String)
      → String
      → ℕ
      → Option String
      → Store
      → Result QueueError QueueItem × Store
  unfolding enqueue_valid
  enqueue_fields (ok f) payload preference stage now capture s =
      enqueue_valid (new_item env f payload preference stage now capture) s
  enqueue_fields (err e) payload preference stage now capture s = (err e, s)

  unfoldable pub enqueue_receipt :
      EventFields
      → Option SpoolRef
      → Option (List String)
      → String
      → ℕ
      → Option String
      → Store
      → Result QueueError QueueItem × Store
  unfolding enqueue_fields event_fields
  enqueue_receipt f payload preference stage now capture s =
      enqueue_fields (event_fields f) payload preference stage now capture s

expiry_late : Option SpoolRef → SpoolRef → Bool
expiry_late none ref = false
expiry_late (some p) ref = ltb p.expires_at ref.expires_at

-- `attach_validated_result`, for the item exactly as it was claimed.
unfoldable pub attach_validated_result :
    Env → QueueItem → SpoolRef → Store → Result QueueError (QueueItem × Store)
unfolding expiry_late
attach_validated_result env item ref s = do
  guard (str_eq ref.purpose "validated-result") queue_result_purpose_invalid
  guard (not (expiry_late item.payload_ref ref)) queue_result_expiry_invalid
  guard (queue_id_ok item.queue_id) queue_id_invalid
  current ← read_item env item.queue_id s
  guard (item_eq current item && state_eq current.state in_progress) queue_result_claim_changed
  let updated = record current { validated_result_ref = some ref }
  ok (updated, store_item updated s)
