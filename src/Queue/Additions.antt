-- ===== src/Queue/Additions.antt =====
-- The operations of src/ei/queue.py that add an item, or a result to an item, as single accesses.
use portable_external_intell.Prelude.{
  ℕ, String, ◌≡◌, refl, sym, subst, Bool, inl, inr, Option, none, some, List, Result, ok, err,
  Result-cases, Bool-cases, Option-cases, arith, not, ◌&&◌,
}
use portable_external_intell.Queue.State.{in_progress}
use portable_external_intell.Queue.Item.{QueueItem, QueueError, SpoolRef, Env, encode}
use portable_external_intell.Queue.Directory.{Store, read_item, store_item, queue_id_ok}
use portable_external_intell.Queue.Reads.{IsProper}
use portable_external_intell.Queue.Follows.{Follows}
use portable_external_intell.Queue.Change.{Change, rewrote, added, Fresh}
use portable_external_intell.Queue.Enqueue.{
  EventFields, Reservation, Outcome, written, emergency, refused, new_item, write_new,
  write_reserved, reserved_item, enqueue_item, enqueue_valid, enqueue_receipt,
  attach_validated_result, existing_by_source_idempotency, event_fields, same_identity,
  enqueue_fields,
}

attached : SpoolRef → QueueItem → QueueItem
attached ref i = record i { validated_result_ref = some ref }

attached-Follows : (ref : SpoolRef) (i : QueueItem) → Follows i (attached ref i)
unfolding attached
attached-Follows ref i = ground arith

attached-IsProper :
    (env : Env) (ref : SpoolRef) (i : QueueItem) (id : String)
    → IsProper env id i
    → IsProper env id (attached ref i)
unfolding attached
attached-IsProper env ref i id p = ground arith

attach_cases :
    (env : Env) (item : QueueItem) (ref : SpoolRef) (s : Store) (u : QueueItem) (t : Store)
    → attach_validated_result env item ref s ≡ ok (u, t)
    → (current : QueueItem) × (read_item env item.queue_id s ≡ ok current)
      × (t ≡ store_item (attached ref current) s)
      × (current.state ≡ in_progress)
unfolding attach_validated_result attached
attach_cases env item ref s u t h = elim (Result-cases (read_item env item.queue_id s)) [
  | inl (current, r) ↦ (current, r, ground arith, ground arith)
  | inr (e, r) ↦ absurd (ground arith)
]

-- A validated result is attached to the item as it was read, while its lease is held.
pub attach-Change :
    (env : Env) (item : QueueItem) (ref : SpoolRef) (s : Store) (u : QueueItem) (t : Store)
    → attach_validated_result env item ref s ≡ ok (u, t)
    → Change env s t
attach-Change env item ref s u t h =
    let (current, r, e, _) = attach_cases env item ref s u t h in
    rewrote (attached ref current)
      (record {
        at = item.queue_id;
        old = current;
        found = r;
        follows = attached-Follows ref current;
        keeps = λ id p. attached-IsProper env ref current id p;
      })
      (λ id.
        subst (λ k. read_item env id k ≡ read_item env id (store_item (attached ref current) s))
          (sym e) refl)

module _ (env : Env) (f : EventFields) (body : Option SpoolRef) (preference : Option (List String))
    (stage : String) (now : ℕ) (capture : Option String) where
  abbrev fresh_item : QueueItem
  fresh_item = new_item env f body preference stage now capture

  new_item-IsProper : IsProper env fresh_item.queue_id fresh_item
  unfolding new_item
  new_item-IsProper = record {
    named = refl;
    tagged = refl;
    unowned = λ _. refl;
    unleased = λ _. refl;
  }

-- The item that is written differs from the new one at most in its time of creation.
data SameBut (i j : QueueItem) : Type 0 where
  created : (t : ℕ) → j ≡ record i { created_at = t } → SameBut i j

reserved_item-SameBut :
    (reservation : Option Reservation) (present : Bool) (i j : QueueItem)
    → reserved_item reservation present i ≡ ok j
    → SameBut i j
unfolding reserved_item
reserved_item-SameBut none present i j h = created i.created_at (ground arith)
reserved_item-SameBut (some r) present i j h = elim (Bool-cases (r.writing && not present)) [
  | inr plain ↦ created i.created_at (ground arith)
  | inl again ↦ elim (Option-cases r.created_at) [
    | inl unknown ↦ absurd (ground arith)
    | inr (t, known) ↦ created t (ground arith)
  ]
]

SameBut-Fresh :
    (env : Env) (s : Store) (i j : QueueItem) → SameBut i j → Fresh env s i → Fresh env s j
SameBut-Fresh env s i j (created t e) f = subst (Fresh env s) (sym e) (record {
  unused = f.unused;
  proper = record {
    named = refl;
    tagged = f.proper.tagged;
    unowned = f.proper.unowned;
    unleased = f.proper.unleased;
  };
})

module _ (env : Env) (outcome : Outcome) (s : Store) where
  write_new-Change :
      (outcome : Outcome) (i : QueueItem) → Fresh env s i → Change env s (write_new outcome i s).1
  unfolding write_new
  write_new-Change written i f = added i f (λ id. refl)
  write_new-Change (emergency name) i f = Change.same (λ id. refl)
  write_new-Change (refused e) i f = Change.same (λ id. refl)

  write_reserved-Change :
      (r : Result QueueError QueueItem)
      → ((i : QueueItem) → r ≡ ok i → Fresh env s i)
      → Change env s (write_reserved outcome r s).1
  unfolding write_reserved
  write_reserved-Change (ok i) f = write_new-Change outcome i (f i refl)
  write_reserved-Change (err e) f = Change.same (λ id. refl)

module _ (env : Env) (reservation : Option Reservation) (present : Bool) (outcome : Outcome)
    (s : Store) where
  enqueue_item-Change :
      (i : QueueItem) (found : Option (Result QueueError QueueItem))
      → existing_by_source_idempotency env i.idempotency_key i.source_host_id s ≡ found
      → IsProper env i.queue_id i
      → Change env s (enqueue_item env reservation present outcome i found s).1
  unfolding enqueue_item
  enqueue_item-Change i (some (err e)) h p = Change.same (λ id. refl)
  enqueue_item-Change i (some (ok old)) h p = elim (Bool-cases (same_identity old i)) [
    | inl alike ↦ rw alike (Change.same (λ id. refl))
    | inr other ↦ rw other (Change.same (λ id. refl))
  ]
  enqueue_item-Change i none h p = elim (Bool-cases (queue_id_ok i.queue_id)) [
    | inr bad ↦ rw bad (Change.same (λ id. refl))
    | inl fine ↦ rw fine (
        write_reserved-Change env outcome s (reserved_item reservation present i) (λ j e.
          SameBut-Fresh env s i j (reserved_item-SameBut reservation present i j e)
            (record { unused = h; proper = p })))
  ]

  enqueue_valid-Change :
      (i : QueueItem)
      → IsProper env i.queue_id i
      → Change env s (enqueue_valid env reservation present outcome i s).1
  unfolding enqueue_valid
  enqueue_valid-Change i p = elim (Bool-cases (env.schema_ok (encode i))) [
    | inr bad ↦ rw bad (Change.same (λ id. refl))
    | inl fine ↦ rw fine (
        enqueue_item-Change i
          (existing_by_source_idempotency env i.idempotency_key i.source_host_id s) refl p)
  ]

  enqueue_fields-Change :
      (r : Result QueueError EventFields) (body : Option SpoolRef)
      (preference : Option (List String)) (stage : String) (now : ℕ) (capture : Option String)
      → Change env s
          (enqueue_fields env reservation present outcome r body preference stage now capture s).1
  unfolding enqueue_fields
  enqueue_fields-Change (ok f) body preference stage now capture =
      enqueue_valid-Change (new_item env f body preference stage now capture)
        (new_item-IsProper env f body preference stage now capture)
  enqueue_fields-Change (err e) body preference stage now capture = Change.same (λ id. refl)

  -- A receipt adds an item under a key that no readable file has, or changes nothing.
  pub enqueue-Change :
      (f : EventFields) (body : Option SpoolRef) (preference : Option (List String))
      (stage : String) (now : ℕ) (capture : Option String)
      → Change env s
          (enqueue_receipt env reservation present outcome f body preference stage now capture s).1
  unfolding enqueue_receipt
  enqueue-Change f body preference stage now capture =
      enqueue_fields-Change (event_fields f) body preference stage now capture
