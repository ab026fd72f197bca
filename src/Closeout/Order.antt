-- ===== src/Closeout/Order.antt =====
-- Ascending lists of identifiers (`_validate_index` of src/ei/closeout_store.py).
use Prim.Native.String.compare
use Prim.Native.String.{compare}
use Prim.Native.Nat.{Ordering}
use text.Mathlib.Text.{is_lt}
use text.Mathlib.TextPositions.{compare_refl}
use portable_external_intell.Prelude.{
  Bool, List, String, [], arith, eq_iff, false, has, refl, sym, true, ◌&&◌, ◌++◌, ◌∙◌, ◌∷◌, ◌≡◌,
}
use portable_external_intell.Closeout.Record.{ascending}

gt_not_lt : ¬ (Ordering.gt ≡ Ordering.lt)
gt_not_lt h = cc

eq_not_lt : ¬ (Ordering.eq ≡ Ordering.lt)
eq_not_lt h = cc

pub compare_trans :
    (s t u : String)
    → compare s t ≡ Ordering.lt
    → compare t u ≡ Ordering.lt
    → compare s u ≡ Ordering.lt
compare_trans String.[] t (String.◌∷◌ e u) h k = compare.nil-cons e u
compare_trans String.[] String.[] String.[] h k = k
compare_trans String.[] (String.◌∷◌ d t) String.[] h k =
    absurd (gt_not_lt (sym (compare.cons-nil d t) ∙ k))
compare_trans (String.◌∷◌ c s) String.[] u h k = absurd (gt_not_lt (sym (compare.cons-nil c s) ∙ h))
compare_trans (String.◌∷◌ c s) (String.◌∷◌ d t) String.[] h k =
    absurd (gt_not_lt (sym (compare.cons-nil d t) ∙ k))
compare_trans (String.◌∷◌ c s) (String.◌∷◌ d t) (String.◌∷◌ e u) h k =
    let below = compare_trans s t u in
    let h' = sym (compare.cons-cons c d s t) ∙ h in
    let k' = sym (compare.cons-cons d e t u) ∙ k in
    compare.cons-cons c e s u ∙ ground (arith, below, h', k')

flipped : Ordering → Ordering
flipped Ordering.lt = Ordering.gt
flipped Ordering.eq = Ordering.eq
flipped Ordering.gt = Ordering.lt

pub compare-flip : (s t : String) → compare s t ≡ Ordering.lt → compare t s ≡ Ordering.gt
compare-flip String.[] String.[] h = absurd (eq_not_lt (sym compare.nil-nil ∙ h))
compare-flip String.[] (String.◌∷◌ d t) h = compare.cons-nil d t
compare-flip (String.◌∷◌ c s) String.[] h = absurd (gt_not_lt (sym (compare.cons-nil c s) ∙ h))
compare-flip (String.◌∷◌ c s) (String.◌∷◌ d t) h =
    let below = compare-flip s t in
    let h' = sym (compare.cons-cons c d s t) ∙ h in
    compare.cons-cons d c t s ∙ ground (arith, below, h')

pub is_lt-true : (o : Ordering) → is_lt o ≡ true → o ≡ Ordering.lt
is_lt-true Ordering.lt h = refl
is_lt-true Ordering.eq h = cc
is_lt-true Ordering.gt h = cc

pub both_true : (a b : Bool) → (a && b) ≡ true → (a ≡ true) × (b ≡ true)
both_true a b h = (ground (arith, h), ground (arith, h))

-- The first text of an ascending list is below one behind it.
pub ascending-first :
    (x : String) (xs : List String) (y : String) (ys : List String)
    → ascending (x ∷ xs ++ y ∷ ys) ≡ true
    → (compare x y ≡ Ordering.lt) × (ascending (xs ++ y ∷ ys) ≡ true)
unfolding ascending
ascending-first x [] y ys h =
    let (first, rest) = both_true (is_lt (compare x y)) (ascending (y ∷ ys)) h in
    (is_lt-true (compare x y) first, rest)
ascending-first x (z ∷ xs) y ys h =
    let (first, rest) = both_true (is_lt (compare x z)) (ascending (z ∷ xs ++ y ∷ ys)) h in
    let (second, rest') = ascending-first z xs y ys rest in
    (compare_trans x z y (is_lt-true (compare x z) first) second, rest)

above-absent :
    (w x : String) (xs : List String)
    → compare w x ≡ Ordering.lt
    → ascending (x ∷ xs) ≡ true
    → has (x ∷ xs) w ≡ false
unfolding ascending
above-absent w x [] h k = ground (arith, h, eq_iff x w, compare_refl w)
above-absent w x (y ∷ ys) h k =
    let (first, rest) = both_true (is_lt (compare x y)) (ascending (y ∷ ys)) k in
    let below = above-absent w y ys (compare_trans w x y h (is_lt-true (compare x y) first)) rest in
    ground (arith, h, below, eq_iff x w, compare_refl w)

-- An ascending list has its first text once.
pub ascending-once :
    (x : String) (xs : List String)
    → ascending (x ∷ xs) ≡ true
    → (has xs x ≡ false) × (ascending xs ≡ true)
unfolding ascending
ascending-once x [] h = (refl, refl)
ascending-once x (y ∷ ys) h =
    let (first, rest) = both_true (is_lt (compare x y)) (ascending (y ∷ ys)) h in
    (above-absent x y ys (is_lt-true (compare x y) first) rest, rest)
