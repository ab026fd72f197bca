-- ===== src/Queue/Change.antt =====
-- What one access under the lock does to the directory: nothing that a read can see, the rewrite of
-- an item that it has read, or a new item under a key that no readable file has.
use portable_external_intell.Prelude.{String, ◌≡◌, sym, ◌∙◌, subst, inl, inr, none, Result, ok}
use portable_external_intell.Queue.Item.{QueueItem, QueueError, Env}
use portable_external_intell.Queue.Directory.{Store, read_item, store_item}
use portable_external_intell.Queue.Enqueue.{
  existing_by_source_idempotency, existing-none, same_tag-eq,
}
use portable_external_intell.Queue.Reads.{
  IsProper, IsWellFormed, read_item_cases, store_item-IsWellFormed,
}
use portable_external_intell.Queue.Follows.{Follows, Follows-refl, Follows-settled}

abbrev pub SameReads : Env → Store → Store → Type 0
SameReads env s t = (id : String) → read_item env id t ≡ read_item env id s

pub record Rewrite (env : Env) (s : Store) (new : QueueItem) : Type 0 where
  pub at : String
  pub old : QueueItem
  pub found : read_item env at s ≡ ok old
  pub follows : Follows old new
  pub keeps : (id : String) → IsProper env id old → IsProper env id new

pub record Fresh (env : Env) (s : Store) (new : QueueItem) : Type 0 where
  pub unused : existing_by_source_idempotency env new.idempotency_key new.source_host_id s ≡ none
  pub proper : IsProper env new.queue_id new

pub data Change (env : Env) (s t : Store) : Type 0 where
  same : SameReads env s t → Change env s t
  rewrote :
      (new : QueueItem) → Rewrite env s new → SameReads env (store_item new s) t → Change env s t
  added : (new : QueueItem) → Fresh env s new → SameReads env (store_item new s) t → Change env s t

IsWellFormed-SameReads :
    (env : Env) (s t : Store) → SameReads env s t → IsWellFormed env s → IsWellFormed env t
IsWellFormed-SameReads env s t r w = record { proper = λ id i h. w.proper id i (sym (r id) ∙ h) }

Rewrite-IsProper :
    (env : Env) (s : Store) (new : QueueItem)
    → Rewrite env s new
    → IsWellFormed env s
    → IsProper env new.queue_id new
Rewrite-IsProper env s new r w =
    let p = w.proper r.at r.old r.found in
    let q = r.keeps r.at p in subst (λ k. IsProper env k new) (sym q.named) q

-- Every access keeps the directory well formed.
pub Change-IsWellFormed :
    (env : Env) (s t : Store) → Change env s t → IsWellFormed env s → IsWellFormed env t
Change-IsWellFormed env s t (same r) w = IsWellFormed-SameReads env s t r w
Change-IsWellFormed env s t (rewrote new u r) w =
    IsWellFormed-SameReads env (store_item new s) t r
      (store_item-IsWellFormed env new s (Rewrite-IsProper env s new u w) w)
Change-IsWellFormed env s t (added new f r) w =
    IsWellFormed-SameReads env (store_item new s) t r (store_item-IsWellFormed env new s f.proper w)

pub one_read : (r : Result QueueError QueueItem) {a b : QueueItem} → r ≡ ok a → r ≡ ok b → a ≡ b
one_read r h k = cc

-- The file that was rewritten holds what follows from it.
rewritten :
    (env : Env) (s : Store) (new : QueueItem) (id : String) (i j : QueueItem)
    → Rewrite env s new
    → IsWellFormed env s
    → read_item env id s ≡ ok i
    → read_item env id (store_item new s) ≡ ok j
    → Follows i j
rewritten env s new id i j r w hi hj = elim (read_item_cases env new id s hj) [
  | inl (named, e) ↦
      let p = w.proper r.at r.old r.found in
      let q = r.keeps r.at p in
      let at_id : r.at ≡ id = sym q.named ∙ named in
      let one : r.old ≡ i =
        one_read _ (subst (λ k. read_item env k s ≡ ok r.old) at_id r.found) hi in
      subst (Follows i) (sym e) (Follows-settled i new (subst (λ k. Follows k new) one r.follows))
  | inr (other, old) ↦ subst (Follows i) (one_read _ hi old) (Follows-refl i)
]

-- The identifier tells the key and the source host apart, as a digest of them does.
pub record IsDistinct (env : Env) : Type 0 where
  pub apart :
      (e k h e' k' h' : String)
      → env.new_queue_id e k h ≡ env.new_queue_id e' k' h'
      → (k ≡ k') × (h ≡ h')

-- A new item stands in no file that can be read.
untouched :
    (env : Env) (s : Store) (new : QueueItem) (id : String) (i j : QueueItem)
    → IsDistinct env
    → Fresh env s new
    → IsWellFormed env s
    → read_item env id s ≡ ok i
    → read_item env id (store_item new s) ≡ ok j
    → Follows i j
untouched env s new id i j d f w hi hj = elim (read_item_cases env new id s hj) [
  | inl (named, e) ↦
      let p = w.proper id i hi in
      let (key, host) =
        d.apart _ _ _ _ _ _ (sym f.proper.tagged ∙ named ∙ sym p.named ∙ p.tagged) in
      absurd (
        cc (
          existing-none env new.idempotency_key new.source_host_id id s i f.unused hi,
          same_tag-eq new.idempotency_key new.source_host_id i (sym key) (sym host),
        ))
  | inr (other, old) ↦ subst (Follows i) (one_read _ hi old) (Follows-refl i)
]

-- What a file holds after an access follows from what it held before.
pub Change-Follows :
    (env : Env) (s t : Store) (id : String) (i j : QueueItem)
    → IsDistinct env
    → IsWellFormed env s
    → Change env s t
    → read_item env id s ≡ ok i
    → read_item env id t ≡ ok j
    → Follows i j
Change-Follows env s t id i j d w (same r) hi hj =
    subst (Follows i) (one_read _ hi (sym (r id) ∙ hj)) (Follows-refl i)
Change-Follows env s t id i j d w (rewrote new u r) hi hj =
    rewritten env s new id i j u w hi (sym (r id) ∙ hj)
Change-Follows env s t id i j d w (added new f r) hi hj =
    untouched env s new id i j d f w hi (sym (r id) ∙ hj)
