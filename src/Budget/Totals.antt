-- ===== src/Budget/Totals.antt =====
-- How the totals of src/ei/inference/budget.py change when one counter is put in place.
use portable_external_intell.Prelude.{
  Bool, Bool-cases, List, Option, String, [], arith, eq_iff, if◌then◌else◌, inl, inr, insert,
  lookup, none, refl, some, str_eq, ℕ, ◌+◌, ◌∷◌, ◌≡◌,
}
use portable_external_intell.Budget.Ledger.{Amount, Counter, add, amount_of, new_counter, total}

-- The three numbers of a counter.
pub data Field : Type 0 where
  input_field output_field cost_field : Field

abbrev pub get : Field → Counter → ℕ
get input_field c = c.input_tokens
get output_field c = c.output_tokens
get cost_field c = c.cost

abbrev pub part : Field → Amount → ℕ
part input_field a = a.input_tokens
part output_field a = a.output_tokens
part cost_field a = a.cost

pub get-add :
    (f : Field) (c : Counter) (a : Amount) (day : String) → get f (add c a day) ≡ get f c + part f a
get-add input_field c a day = refl
get-add output_field c a day = refl
get-add cost_field c a day = refl

pub part-amount_of : (f : Field) (c : Counter) → part f (amount_of c) ≡ get f c
part-amount_of input_field c = refl
part-amount_of output_field c = refl
part-amount_of cost_field c = refl

pub get-new : (f : Field) → get f new_counter ≡ 0
get-new input_field = refl
get-new output_field = refl
get-new cost_field = refl

module _ (selects : String → Counter → Bool) (day : String) (f : Field) where
  -- What one counter adds to the total.
  abbrev pub share : String → Counter → ℕ
  share key c = if selects key c then get f c else 0

  abbrev pub old_share : String → Option Counter → ℕ
  old_share key none = 0
  old_share key (some c) = share key c

  pub total-cons :
      (key : String) (c : Counter) (rest : List (String × Counter))
      → get f (total selects day ((key, c) ∷ rest)) ≡ share key c + get f (total selects day rest)
  unfolding total
  total-cons key c rest = elim (Bool-cases (selects key c)) [
    | inl e ↦
        rw (e, get-add f (total selects day rest) (amount_of c) day, part-amount_of f c)
          (omega arith)
    | inr e ↦ rw e (omega arith)
  ]

  total-nil : get f (total selects day []) ≡ 0
  unfolding total
  total-nil = get-new f

  -- The counter put in place counts instead of the one that was there.
  pub total-insert :
      (key : String) (c : Counter) (m : List (String × Counter))
      → get f (total selects day (insert key c m)) + old_share key (lookup key m)
        ≡ get f (total selects day m) + share key c
  unfolding insert lookup
  total-insert key c [] = rw (total-cons key c [], total-nil) (omega arith)
  total-insert key c ((here, w) ∷ rest) = elim (Bool-cases (str_eq here key)) [
    | inl e ↦
        let same_key : here ≡ key = ground (arith, eq_iff here key) in
        rw (e, total-cons here c rest, total-cons here w rest, same_key) (omega arith)
    | inr e ↦
        let below = total-insert key c rest in
        rw (e, total-cons here w (insert key c rest), total-cons here w rest) (omega (arith, below))
  ]
