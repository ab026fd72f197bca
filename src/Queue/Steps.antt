-- ===== src/Queue/Steps.antt =====
-- Each operation of src/ei/queue.py is a sequence of accesses under the lock, between which other
-- processes make theirs.
use portable_external_intell.Prelude.{
  ℕ, String, ◌≡◌, refl, sym, subst, true, ◌⊎◌, inl, inr, Option, ok, Result-cases, Option-cases,
  arith,
}
use portable_external_intell.Queue.State.{QueueState}
use portable_external_intell.Queue.Item.{QueueItem, SpoolRef, Env}
use portable_external_intell.Queue.Directory.{Store, read_item, store_item}
use portable_external_intell.Queue.Transition.{
  Field, begin, settle_ref, moved, may_move, cleaned, get_ref,
}
use portable_external_intell.Queue.Reads.{IsProper}
use portable_external_intell.Queue.Follows.{
  Follows, moved-Follows, moved-IsProper, cleaned-Follows, cleaned-IsProper,
}
use portable_external_intell.Queue.Change.{Change, rewrote}

module _ (env : Env) (s : Store) where
  pub begin_inv :
      (item : QueueItem) (target : QueueState) (moment : ℕ) (reason : Option String)
      (next : Option ℕ) (u current : QueueItem) (t : Store)
      → read_item env item.queue_id s ≡ ok current
      → begin env item target moment reason next s ≡ ok (u, t)
      → (may_move current target reason moment ≡ true)
        × (u ≡ moved env target moment reason next current)
        × (t ≡ store_item u s)
  unfolding begin
  begin_inv item target moment reason next u current t r h = ground arith

  pub begin_reads :
      (item : QueueItem) (target : QueueState) (moment : ℕ) (reason : Option String)
      (next : Option ℕ) (u : QueueItem) (t : Store)
      → begin env item target moment reason next s ≡ ok (u, t)
      → (current : QueueItem) × (read_item env item.queue_id s ≡ ok current)
  unfolding begin
  begin_reads item target moment reason next u t h =
      elim (Result-cases (read_item env item.queue_id s)) [
        | inl found ↦ found
        | inr (e, r) ↦ absurd (ground arith)
      ]

  -- The guarded write rewrites the item that it read under the lock.
  pub begin-Change :
      (item : QueueItem) (target : QueueState) (moment : ℕ) (reason : Option String)
      (next : Option ℕ) (u : QueueItem) (t : Store)
      → begin env item target moment reason next s ≡ ok (u, t)
      → Change env s t
  begin-Change item target moment reason next u t h =
      let (current, r) = begin_reads item target moment reason next u t h in
      let (may, eu, et) = begin_inv item target moment reason next u current t r h in
      rewrote u
        (record {
          at = item.queue_id;
          old = current;
          found = r;
          follows =
              subst (Follows current) (sym eu)
                (moved-Follows env target moment reason next current may);
          keeps = λ id p.
              subst (IsProper env id) (sym eu)
                (moved-IsProper env target moment reason next current id p);
        })
        (λ id. subst (λ k. read_item env id t ≡ read_item env id k) et refl)

  settle_cases :
      (path : String) (field : Field) (ref : SpoolRef) (target : QueueState) (moment : ℕ)
      (updated u : QueueItem) (t : Store)
      → settle_ref env path field ref target moment updated s ≡ ok (u, t)
      → (t ≡ s)
        ⊎ ((current : QueueItem) × (read_item env path s ≡ ok current)
            × (t ≡ store_item (cleaned field moment current) s))
  unfolding settle_ref
  settle_cases path field ref target moment updated u t h =
      elim (Result-cases (read_item env path s)) [
        | inl (current, r) ↦ elim (Option-cases (get_ref field current)) [
          | inl gone ↦ inl (ground arith)
          | inr (saved, there) ↦ inr (current, r, ground arith)
        ]
        | inr (e, r) ↦ absurd (ground arith)
      ]

  pub settle-Change :
      (path : String) (field : Field) (ref : SpoolRef) (target : QueueState) (moment : ℕ)
      (updated u : QueueItem) (t : Store)
      → settle_ref env path field ref target moment updated s ≡ ok (u, t)
      → Change env s t
  settle-Change path field ref target moment updated u t h =
      elim (settle_cases path field ref target moment updated u t h) [
        | inl e ↦
            Change.same (λ id. subst (λ k. read_item env id k ≡ read_item env id s) (sym e) refl)
        | inr (current, r, e) ↦
            rewrote (cleaned field moment current)
              (record {
                at = path;
                old = current;
                found = r;
                follows = cleaned-Follows env current field moment;
                keeps = λ id p. cleaned-IsProper env current field moment id p;
              })
              (λ id.
                subst
                  (λ k.
                    read_item env id k
                    ≡ read_item env id (store_item (cleaned field moment current) s))
                  (sym e) refl)
      ]
