-- ===== src/Prelude/Tests.antt =====
-- Boolean tests on numbers, texts and options, and the conditional.
use Prim.Native.Nat.{ℕ, ◌*◌, ◌≤◌, ◌<◌, compare, Ordering}
use Prim.Native.String.{String}
use mathlib.Core.Path.{◌≡◌, refl}
use mathlib.Core.Logic.{◌⊎◌, inl, inr}
use mathlib.Core.Bool.{Bool, true, false}
use mathlib.Core.Option.{Option, none, some}
use native.Mathlib.Omega.{arith}
use text.Mathlib.Text.{◌==◌ as str_beq}

abbrev pub ltb : ℕ → ℕ → Bool
ltb a b = elim (compare a b) [ Ordering.lt ↦ true | _ ↦ false ]

abbrev pub leb : ℕ → ℕ → Bool
leb a b = elim (compare a b) [ Ordering.gt ↦ false | _ ↦ true ]

infix 50 ◌==◌
abbrev pub ◌==◌ : ℕ → ℕ → Bool
a == b = elim (compare a b) [ Ordering.eq ↦ true | _ ↦ false ]

abbrev pub str_eq : String → String → Bool
str_eq a b = str_beq a b

infix 1 if◌then◌else◌
abbrev pub if◌then◌else◌ {ℓ} : {A : Type ℓ} → Bool → A → A → A
if true then x else y = x
if false then x else y = y

abbrev pub is_some {ℓ} : {A : Type ℓ} → Option A → Bool
is_some none = false
is_some (some a) = true

-- `a == b` of two optional values, by a test on the values.
abbrev pub opt_eq {ℓ} : {A : Type ℓ} → (A → A → Bool) → Option A → Option A → Bool
opt_eq eq none none = true
opt_eq eq (some a) (some b) = eq a b
opt_eq eq _ _ = false

-- `o or d`: the value, if there is one.
abbrev pub or_else {ℓ} : {A : Type ℓ} → Option A → Option A → Option A
or_else none d = d
or_else (some a) d = some a

-- Instants are microseconds from a fixed origin, as a `datetime` keeps them.
abbrev pub seconds : ℕ → ℕ
seconds n = n * 1000000

abbrev pub days : ℕ → ℕ
days n = n * 86400000000

pub ltb→lt : (a b : ℕ) → ltb a b ≡ true → a < b
ltb→lt a b h = ground arith

pub leb→le : (a b : ℕ) → leb a b ≡ true → a ≤ b
leb→le a b h = ground arith

-- To split on a computed value and keep the equation.
pub Bool-cases : (b : Bool) → (b ≡ true) ⊎ (b ≡ false)
Bool-cases true = inl refl
Bool-cases false = inr refl

pub Option-cases {ℓ} : {A : Type ℓ} (o : Option A) → (o ≡ none) ⊎ ((a : A) × (o ≡ some a))
Option-cases none = inl refl
Option-cases (some a) = inr (a, refl)

-- What holds of both branches holds of the conditional.
pub if_elim {ℓ κ} :
    {A : Type ℓ} (Holds : A → Type κ) (test : Bool) {yes_case no_case : A}
    → Holds yes_case
    → Holds no_case
    → Holds (if test then yes_case else no_case)
if_elim Holds true h k = h
if_elim Holds false h k = k

-- The same, where each branch knows how the test went.
pub if_split {ℓ κ} :
    {A : Type ℓ} (Holds : A → Type κ) (test : Bool) {yes_case no_case : A}
    → (test ≡ true → Holds yes_case)
    → (test ≡ false → Holds no_case)
    → Holds (if test then yes_case else no_case)
if_split Holds true h k = h refl
if_split Holds false h k = k refl

-- What holds of each case holds of a case distinction by an option.
pub option_split :
    {A B : Type 0} (Holds : B → Type 0) (o : Option A) {n : B} {k : A → B}
    → (o ≡ none → Holds n)
    → ((a : A) → o ≡ some a → Holds (k a))
    → Holds (elim o [ none ↦ n | some a ↦ k a ])
option_split Holds none hn hk = hn refl
option_split Holds (some a) hn hk = hk a refl
