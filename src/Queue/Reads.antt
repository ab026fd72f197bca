-- ===== src/Queue/Reads.antt =====
-- What reads find after a write, and the well-formedness of a queue directory.
use portable_external_intell.Prelude.{
  String, ◌≡◌, ◌≢◌, sym, subst, false, ◌⊎◌, inl, inr, none, str_eq, Result, ok, err, arith, eq_iff,
  Bool-cases,
}
use portable_external_intell.Queue.Item.{QueueItem, QueueError, Env, settled, decode-encode_inv}
use portable_external_intell.Queue.Directory.{
  Store, corrupt, read_item, store_item, read_item-store_item,
}
use portable_external_intell.Queue.Transition.{leased}

corrupt-eq_ok : {A : Type 0} (r : Result QueueError A) {a : A} → corrupt r ≡ ok a → r ≡ ok a
corrupt-eq_ok (ok b) h = h
corrupt-eq_ok (err e) h = cc

-- What a read finds after a write: the item that was written, or what was there before.
pub read_item_cases :
    (env : Env) (i : QueueItem) (id : String) (s : Store) {j : QueueItem}
    → read_item env id (store_item i s) ≡ ok j
    → (i.queue_id ≡ id) × (j ≡ settled i) ⊎ (i.queue_id ≢ id) × (read_item env id s ≡ ok j)
read_item_cases env i id s {j} h = elim (Bool-cases (str_eq i.queue_id id)) [
  | inl same ↦ inl (
    (eq_iff i.queue_id id).0 same,
    decode-encode_inv env i j
        (corrupt-eq_ok _ (rw same at (rw (read_item-store_item env i id s) at h))),
  )
  | inr other ↦ inr (
    λ e. cc (other, (eq_iff i.queue_id id).1 e),
    rw other at (rw (read_item-store_item env i id s) at h),
  )
]

-- An item that may stand in the file of an identifier.
pub record IsProper (env : Env) (id : String) (i : QueueItem) : Type 0 where
  pub named : i.queue_id ≡ id
  pub tagged : i.queue_id ≡ env.new_queue_id i.event_id i.idempotency_key i.source_host_id
  pub unowned : leased i.state ≡ false → i.lease_owner ≡ none
  pub unleased : leased i.state ≡ false → i.lease_expires_at ≡ none

-- Every file that can be read holds an item of its identifier, and only work in progress is leased.
pub record IsWellFormed (env : Env) (s : Store) : Type 0 where
  pub proper : (id : String) (i : QueueItem) → read_item env id s ≡ ok i → IsProper env id i

pub IsProper-settled :
    (env : Env) (id : String) (i : QueueItem) → IsProper env id i → IsProper env id (settled i)
IsProper-settled env id i p = ground arith

-- A proper item may be written.
pub store_item-IsWellFormed :
    (env : Env) (i : QueueItem) (s : Store)
    → IsProper env i.queue_id i
    → IsWellFormed env s
    → IsWellFormed env (store_item i s)
store_item-IsWellFormed env i s p w = record {
  proper = λ id j h. elim (read_item_cases env i id s h) [
    | inl (same, e) ↦
        subst (λ k. IsProper env k j) same
          (subst (IsProper env i.queue_id) (sym e) (IsProper-settled env i.queue_id i p))
    | inr (other, old) ↦ w.proper id j old
  ];
}
