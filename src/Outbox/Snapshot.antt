-- ===== src/Outbox/Snapshot.antt =====
-- A drain over the receipts that it read at its start (src/ei/team_outbox.py).
use portable_external_intell.Prelude.{
  All, Bool-cases, List, Result, String, [], arith, eq_iff, eq_refl, false, if_elim, inl, inr,
  insert, leb, lookup, lookup-insert, ltb, none, not, refl, some, str_eq, subst, sym, ℕ, ◌&&◌, ◌∙◌,
  ◌∷◌, ◌≡◌,
}
use portable_external_intell.Outbox.State.{
  Digests, Effect, Receipt, Surroundings, World, apply, apply_all, deletes, files, saves, spools,
}
use portable_external_intell.Outbox.Deliver.{handle_receipt}
use portable_external_intell.Outbox.Drain.{
  Counts, Drained, counted, drain_loop, drain_team_outbox, no_counts, records,
}
use portable_external_intell.Outbox.Kept.{
  AllFit, AllFit-Keeps, AllFit-elsewhere, AllSafe, Keeps, Keeps-AllSafe, Keeps-append,
}
use portable_external_intell.Outbox.Handled.{handle_receipt-Fits}

-- No two receipts are by one name.
abbrev pub Distinct : List (String × Receipt) → Type 0
Distinct [] = Unit
Distinct ((id, r) ∷ rest) = (lookup id rest ≡ none) × Distinct rest

insert-Distinct :
    (id : String) (r : Receipt) (m : List (String × Receipt))
    → Distinct m
    → Distinct (insert id r m)
unfolding insert lookup
insert-Distinct id r [] h = (refl, tt)
insert-Distinct id r ((k, q) ∷ m) (h, h') = elim (Bool-cases (str_eq k id)) [
  | inl same ↦ rw same (h, h')
  | inr other ↦ rw other (
    ground (arith, lookup-insert id k r m, h, eq_iff k id, eq_iff id k),
    insert-Distinct id r m h',
  )
]

pub apply_all-Distinct :
    (es : List Effect) (w : World) → Distinct w.receipts → Distinct (apply_all es w).receipts
unfolding apply_all apply
apply_all-Distinct [] w h = h
apply_all-Distinct (spools id p ∷ es) w h = apply_all-Distinct es (apply (spools id p) w) h
apply_all-Distinct (files f ∷ es) w h = apply_all-Distinct es (apply (files f) w) h
apply_all-Distinct (deletes id ∷ es) w h = apply_all-Distinct es (apply (deletes id) w) h
apply_all-Distinct (saves r ∷ es) w h =
    apply_all-Distinct es (apply (saves r) w) (insert-Distinct r.receipt_id r w.receipts h)

-- Receipts that are on file, by different names.
abbrev Current : World → List Receipt → Type 0
Current w [] = Unit
Current w (r ∷ rest) =
    (lookup r.receipt_id w.receipts ≡ some r)
    × All (λ q. str_eq r.receipt_id q.receipt_id ≡ false) rest
    × Current w rest

abbrev ByName : List (String × Receipt) → Type 0
ByName m = (id : String) (r : Receipt) → lookup id m ≡ some r → r.receipt_id ≡ id

lookup-behind :
    (k : String) (q : Receipt) (m : List (String × Receipt)) (id : String) (r : Receipt)
    → lookup k m ≡ none
    → lookup id m ≡ some r
    → lookup id ((k, q) ∷ m) ≡ some r
unfolding lookup
lookup-behind k q m id r free at = elim (Bool-cases (str_eq k id)) [
  | inl same ↦
      let e : k ≡ id = (eq_iff k id).0 same in
      let never : none ≡ some r = sym (rw e at free) ∙ at in cc
  | inr other ↦ rw other at
]

lookup-first :
    (k : String) (q : Receipt) (m : List (String × Receipt)) → lookup k ((k, q) ∷ m) ≡ some q
unfolding lookup
lookup-first k q m = rw (eq_refl k) refl

others-Distinct :
    (id : String) (m : List (String × Receipt))
    → ByName m
    → Distinct m
    → lookup id m ≡ none
    → All (λ (q : Receipt). str_eq id q.receipt_id ≡ false) (records m)
unfolding lookup
others-Distinct id [] named h free = tt
others-Distinct id ((k, q) ∷ m) named (h, h') free =
    let own : q.receipt_id ≡ k = named k q (lookup-first k q m) in
    let other : str_eq id k ≡ false = ground (arith, free, eq_iff k id, eq_iff id k) in
    (
      rw own other,
      others-Distinct id m (λ j r at. named j r (lookup-behind k q m j r h at)) h'
          (ground (arith, free, eq_iff k id)),
    )

records-Current :
    (m : List (String × Receipt)) (w : World)
    → ByName m
    → Distinct m
    → ((id : String) (r : Receipt) → lookup id m ≡ some r → lookup id w.receipts ≡ some r)
    → Current w (records m)
records-Current [] w named h at = tt
records-Current ((k, q) ∷ m) w named (h, h') at =
    let own : q.receipt_id ≡ k = named k q (lookup-first k q m) in
    let behind = lookup-behind k q m in
    (
      subst (λ x. lookup x w.receipts ≡ some q) (sym own) (at k q (lookup-first k q m)),
      rw own (others-Distinct k m (λ j r there. named j r (behind j r h there)) h' h),
      records-Current m w (λ j r there. named j r (behind j r h there)) h'
          (λ j r there. at j r (behind j r h there)),
    )

module _ (d : Digests) where
  Current-elsewhere :
      (id : String) (es : List Effect) (w : World) (rs : List Receipt)
      → AllFit d id w es
      → All (λ (q : Receipt). str_eq id q.receipt_id ≡ false) rs
      → Current w rs
      → Current (apply_all es w) rs
  Current-elsewhere id es w [] fits other h = tt
  Current-elsewhere id es w (q ∷ rs) fits (other, others) (at, distinct, h) = (
    AllFit-elsewhere d id q.receipt_id es w fits other ∙ at,
    distinct,
    Current-elsewhere id es w rs fits others h,
  )

  drain_loop-Keeps :
      (s : Surroundings) (max_items : ℕ) (rs : List Receipt) (c : Counts) (w : World)
      → Current w rs
      → AllSafe d w
      → Keeps d w (drain_loop d s max_items rs c w).0
  unfolding drain_loop
  drain_loop-Keeps s max_items [] c w h safe = tt
  drain_loop-Keeps s max_items (r ∷ rs) c w (at, distinct, h) safe =
      let o = handle_receipt d s (ltb c.attempted max_items) r w in
      let fits = handle_receipt-Fits d s (ltb c.attempted max_items) r w at safe in
      let kept = AllFit-Keeps d r.receipt_id o.effects w fits in
      Keeps-append d o.effects _ w kept (
        drain_loop-Keeps s max_items rs (counted o.count c) (apply_all o.effects w)
          (Current-elsewhere r.receipt_id o.effects w rs fits distinct h)
          (Keeps-AllSafe d o.effects w kept safe))

  pub drain_team_outbox-Keeps :
      (s : Surroundings) (max_items : ℕ) (w : World)
      → Distinct w.receipts
      → AllSafe d w
      → Keeps d w (drain_team_outbox d s max_items w).0
  unfolding drain_team_outbox
  drain_team_outbox-Keeps s max_items w distinct safe =
      if_elim (λ (o : List Effect × Result String Drained). Keeps d w o.0)
        (not (leb 1 max_items && leb max_items 10000)) tt
        (if_elim (λ (o : List Effect × Result String Drained). Keeps d w o.0) (not s.configured) tt
          (drain_loop-Keeps s max_items (records w.receipts) no_counts w
            (records-Current w.receipts w (λ id r at. (safe id r at).0.0) distinct (λ id r at. at))
            safe))
