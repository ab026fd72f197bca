-- ===== src/Prelude/Results.antt =====
-- Code that may raise: a value or the error that it raises.
use mathlib.Core.Path.{◌≡◌, refl}
use mathlib.Core.Logic.{◌⊎◌, inl, inr}
use mathlib.Core.Bool.{Bool, true, false}

pub data Result (E A : Type 0) : Type 0 where
  ok : A → Result E A
  err : E → Result E A

pub Result-cases :
    {E A : Type 0} (r : Result E A) → ((a : A) × (r ≡ ok a)) ⊎ ((e : E) × (r ≡ err e))
Result-cases (ok a) = inl (a, refl)
Result-cases (err e) = inr (e, refl)

module _ {E : Type 0} where
  infixl 5 ◌>>=◌ ◌>>◌
  abbrev pub ◌>>=◌ : {A B : Type 0} → Result E A → (A → Result E B) → Result E B
  ok a >>= f = f a
  err e >>= f = err e

  abbrev pub ◌>>◌ : {B : Type 0} → Result E (Unit {0}) → Result E B → Result E B
  m >> k = m >>= λ _. k

  -- `if not test: raise e`
  abbrev pub guard : Bool → E → Result E (Unit {0})
  guard true e = ok tt
  guard false e = err e

  -- A chain that succeeds: its first step does, and so does the rest on that value.
  pub >>=-eq-ok :
      {A B : Type 0} (first : Result E A) (next : A → Result E B) {out : B}
      → (first >>= next) ≡ ok out
      → (v : A) × (first ≡ ok v) × (next v ≡ ok out)
  >>=-eq-ok (ok v) next done = (v, refl, done)
  >>=-eq-ok (err x) next done = cc

  -- The same, where the first step has no value.
  pub >>-eq-ok :
      {B : Type 0} (first : Result E (Unit {0})) (next : Result E B) {out : B}
      → (first >> next) ≡ ok out
      → (first ≡ ok tt) × (next ≡ ok out)
  >>-eq-ok (ok v) next done = (refl, done)
  >>-eq-ok (err x) next done = cc

  pub guard-eq-ok : (test : Bool) (e : E) → guard test e ≡ ok tt → test ≡ true
  guard-eq-ok true e done = refl
  guard-eq-ok false e done = cc

-- What a chain gives, if it succeeds at all.
abbrev pub AllOk {κ} : {E A : Type 0} → (A → Type κ) → Result E A → Type κ
AllOk P (ok a) = P a
AllOk P (err e) = Unit

pub chain-AllOk {κ} :
    {E A B : Type 0} (P : B → Type κ) (m : Result E A) (f : A → Result E B)
    → ((a : A) → AllOk P (f a))
    → AllOk P (m >>= f)
chain-AllOk P (ok a) f h = h a
chain-AllOk P (err e) f h = tt
