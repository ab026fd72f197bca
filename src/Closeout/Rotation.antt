-- ===== src/Closeout/Rotation.antt =====
-- The order in which `active_records` of src/ei/closeout_store.py serves the records, and the cursor.
use text.Mathlib.TextPositions.{compare_refl}
use mathlib.Core.List.{append-nil}
use portable_external_intell.Prelude.{
  List, String, [], ap, arith, false, leb, length, length-append, ok, refl, some, subst, suc, sym,
  take, true, ℕ, ◌&&◌, ◌++◌, ◌==◌, ◌∙◌, ◌∷◌, ◌≡◌, ◌≤◌,
}
use portable_external_intell.Closeout.Record.{ascending}
use portable_external_intell.Closeout.Order.{ascending-first, compare-flip}
use portable_external_intell.Closeout.Files.{Files, Inventory, StoreEnv, inventory, max_active}
use portable_external_intell.Closeout.Reading.{inventory-Listing}
use portable_external_intell.Closeout.Store.{active_records, bisect_right, drop, order_from, picked}

-- In an ascending list, `bisect_right` of an element is the place behind it.
bisect_right-at :
    (xs : List String) (y : String) (ys : List String)
    → ascending (xs ++ y ∷ ys) ≡ true
    → bisect_right (xs ++ y ∷ ys) y ≡ suc (length xs)
unfolding bisect_right
bisect_right-at [] y [] h = rw (compare_refl y) refl
bisect_right-at [] y (z ∷ ys) h =
    rw (compare_refl y, compare-flip y z (ascending-first y [] z ys h).0) refl
bisect_right-at (x ∷ xs) y ys h =
    let (less, rest) = ascending-first x xs y ys h in rw (less, bisect_right-at xs y ys rest) refl

take-append :
    {A : Type 0} (xs : List A) (y : A) (ys : List A)
    → take (suc (length xs)) (xs ++ y ∷ ys) ≡ xs ++ y ∷ []
unfolding take
take-append [] y ys = refl
take-append (x ∷ xs) y ys = ap (λ t. x ∷ t) (take-append xs y ys)

drop-append :
    {A : Type 0} (xs : List A) (y : A) (ys : List A) → drop (suc (length xs)) (xs ++ y ∷ ys) ≡ ys
unfolding drop
drop-append [] y ys = refl
drop-append (x ∷ xs) y ys = drop-append xs y ys

num_same : (n : ℕ) → (n == n) ≡ true
num_same n = ground arith

order-last :
    (xs : List String) (y : String)
    → ascending (xs ++ y ∷ []) ≡ true
    → order_from (xs ++ y ∷ []) (some y) ≡ xs ++ y ∷ []
unfolding take drop
order-last xs y h =
    let at_end : bisect_right (xs ++ y ∷ []) y ≡ length (xs ++ y ∷ []) =
      bisect_right-at xs y [] h ∙ sym (length-append xs (y ∷ []) ∙ omega arith) in
    rw (at_end, num_same (length (xs ++ y ∷ []))) (append-nil (xs ++ y ∷ []))

order-inner :
    (xs : List String) (y z : String) (zs : List String)
    → ascending (xs ++ y ∷ z ∷ zs) ≡ true
    → order_from (xs ++ y ∷ z ∷ zs) (some y) ≡ (z ∷ zs) ++ (xs ++ y ∷ [])
order-inner xs y z zs h =
    let before_end : (suc (length xs) == length (xs ++ y ∷ z ∷ zs)) ≡ false =
      ground (arith, length-append xs (y ∷ z ∷ zs)) in
    rw
      (
        bisect_right-at xs y (z ∷ zs) h,
        before_end,
        drop-append xs y (z ∷ zs),
        take-append xs y (z ∷ zs),
      )
      refl

order_from-rotates :
    (xs : List String) (y : String) (ys : List String)
    → ascending (xs ++ y ∷ ys) ≡ true
    → order_from (xs ++ y ∷ ys) (some y) ≡ ys ++ (xs ++ y ∷ [])
order_from-rotates xs y [] h = order-last xs y h
order_from-rotates xs y (z ∷ zs) h = order-inner xs y z zs h

-- Where the files read and the cursor stands on an active record: the recovery is served the records behind
-- it in the list first, then those before it, and the record of the cursor last, as many as are asked for.
pub active_records-rotates :
    (env : StoreEnv) (f : Files) (inv : Inventory) (most : ℕ) (xs ys : List String) (y : String)
    → inventory env f ≡ ok (some inv)
    → inv.active ≡ xs ++ y ∷ ys
    → inv.last_record_id ≡ some y
    → 1 ≤ most
    → most ≤ 64
    → active_records env most f ≡ ok (picked (take most (ys ++ (xs ++ y ∷ []))) inv.records)
unfolding active_records
active_records-rotates env f inv most xs ys y read split last low high =
    let sorted : ascending (xs ++ y ∷ ys) ≡ true =
      subst (λ ids. ascending ids ≡ true) split (inventory-Listing env f inv read).sorted in
    let in_range : (leb 1 most && leb most max_active) ≡ true = ground arith in
    rw (read, in_range, split, last, order_from-rotates xs y ys sorted) refl
