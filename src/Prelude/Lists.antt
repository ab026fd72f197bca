-- ===== src/Prelude/Lists.antt =====
-- Lists measured by native numbers, and dictionaries keyed by text as association lists.
use Prim.Native.Nat.{ℕ, zero, suc, ◌+◌}
use Prim.Native.String.{String}
use mathlib.Core.Path.{◌≡◌, refl}
use mathlib.Core.Bool.{Bool, true, false, ◌||◌, ◌&&◌}
use mathlib.Core.List.{List, [], ◌∷◌, ◌++◌}
use mathlib.Core.Option.{Option, none, some}
use native.Mathlib.Omega.{arith}
use text.Mathlib.TextEquality.{eq_iff}
use text.Mathlib.TextPositions.{eq_refl}
use portable_external_intell.Prelude.Tests.{if◌then◌else◌, str_eq}

module _ {ℓ} {A : Type ℓ} where
  abbrev pub length : List A → ℕ
  length [] = 0
  length (x ∷ xs) = suc (length xs)

  abbrev pub is_nil : List A → Bool
  is_nil [] = true
  is_nil (x ∷ xs) = false

  pub length-append : (xs ys : List A) → length (xs ++ ys) ≡ length xs + length ys
  length-append [] ys = omega arith
  length-append (x ∷ xs) ys = omega (arith, length-append xs ys)

  -- `any(p(x) for x in xs)`
  abbrev pub any : (A → Bool) → List A → Bool
  any p [] = false
  any p (x ∷ xs) = p x || any p xs

  -- `all(p(x) for x in xs)`
  abbrev pub all : (A → Bool) → List A → Bool
  all p [] = true
  all p (x ∷ xs) = p x && all p xs

-- `xs[:n]`
unfoldable pub take {ℓ} : {A : Type ℓ} → ℕ → List A → List A
take zero xs = []
take (suc n) [] = []
take (suc n) (x ∷ xs) = x ∷ take n xs

-- A predicate of every element, by recursion.
abbrev pub All {ℓ κ} : {A : Type ℓ} → (A → Type κ) → List A → Type κ
All P [] = Unit
All P (x ∷ xs) = P x × All P xs

-- `k in ks`
abbrev pub has : List String → String → Bool
has [] k = false
has (j ∷ ks) k = str_eq j k || has ks k

module _ {ℓ} {V : Type ℓ} where
  unfoldable pub lookup : String → List (String × V) → Option V
  lookup wanted [] = none
  lookup wanted ((here, v) ∷ rest) = if str_eq here wanted then some v else lookup wanted rest

  -- `m[put] = v`: in place, or at the end.
  unfoldable pub insert : String → V → List (String × V) → List (String × V)
  insert put v [] = (put, v) ∷ []
  insert put v ((here, w) ∷ rest) =
      if str_eq here put then (here, v) ∷ rest else (here, w) ∷ insert put v rest

  -- What a key finds after the value of another key is put in place.
  pub lookup-insert :
      (put asked : String) (v : V) (m : List (String × V))
      → lookup asked (insert put v m) ≡ (if str_eq put asked then some v else lookup asked m)
  unfolding lookup insert
  lookup-insert put asked v [] = refl
  lookup-insert put asked v ((here, w) ∷ rest) =
      let below = lookup-insert put asked v rest in
      ground (arith, below, eq_iff here put, eq_iff here asked, eq_iff put asked)

  pub lookup-insert_self :
      (k : String) (v : V) (m : List (String × V)) → lookup k (insert k v m) ≡ some v
  lookup-insert_self k v m = simp (lookup-insert, eq_refl)
