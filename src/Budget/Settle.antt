-- ===== src/Budget/Settle.antt =====
-- `settle` of src/ei/inference/budget.py: what a call really used replaces what was reserved for it.
use portable_external_intell.Prelude.{
  AllOk, Bool, Bool-cases, List, Option, Result, String, chain-AllOk, err, false, if_split,
  if◌then◌else◌, inl, inr, insert, leb, lookup, lookup-insert_self, ltb, none, not, ok, refl, some,
  str_eq, subst, sym, true, ℕ, ◌&&◌, ◌+◌, ◌-◌, ◌>>=◌, ◌||◌, ◌≡◌,
}
use portable_external_intell.Budget.Ledger.{
  Amount, BudgetError, Counter, Ledger, Reservation, cost_invalid, ledger_key_missing,
  reservation_mismatch,
}

-- The result of a provider, as far as the ledger reads it.
pub record ProviderResult : Type 0 where
  pub provider_id : String
  pub success : Bool
  pub used : Amount
  pub usage_known : Bool
  pub cost_known : Bool

abbrev max_of : ℕ → ℕ → ℕ
max_of a b = if leb a b then b else a

-- What is charged in the end: no less than was reserved, unless the usage is known.
unfoldable pub actual : ProviderResult → Reservation → Amount
actual r row =
    let known = r.success && r.usage_known in
    record {
      input_tokens =
          if known
          then r.used.input_tokens
          else max_of r.used.input_tokens row.reserved.input_tokens;
      output_tokens =
          if known
          then r.used.output_tokens
          else max_of r.used.output_tokens row.reserved.output_tokens;
      cost = if known && r.cost_known then r.used.cost else max_of r.used.cost row.reserved.cost;
    }

-- Whether the difference takes the tokens of a counter below zero.
abbrev pub below_zero : Counter → Amount → Reservation → Bool
below_zero c a row =
    ltb (c.input_tokens + a.input_tokens) row.reserved.input_tokens
    || ltb (c.output_tokens + a.output_tokens) row.reserved.output_tokens

-- `_add` of the difference, where the tokens stay numbers.
abbrev pub adjust : Counter → Amount → Reservation → Counter
adjust c a row = record {
  input_tokens = c.input_tokens + a.input_tokens - row.reserved.input_tokens;
  output_tokens = c.output_tokens + a.output_tokens - row.reserved.output_tokens;
  cost = c.cost + a.cost - row.reserved.cost;
  day = row.day;
}

-- One section: a counter of another day is left alone, but in `runs`; a cost below zero is refused by
-- `decimal_cost`. Nothing is left of a section with tokens below zero: `_read` refuses the ledger.
unfoldable pub adjust_section :
    Bool
    → String
    → Amount
    → Reservation
    → List (String × Counter)
    → Result BudgetError (Option (List (String × Counter)))
adjust_section is_runs key a row m = elim (lookup key m) [
  | none ↦ err ledger_key_missing
  | some c ↦
      if not is_runs && not (str_eq c.day row.day)
      then ok (some m)
      else if ltb (c.cost + a.cost) row.reserved.cost
      then err cost_invalid
      else if below_zero c a row
      then ok none
      else ok (some (insert key (adjust c a row) m))
]

-- The ledger that is written; none is one that `_read` refuses.
unfoldable pub written :
    String
    → Reservation
    → Ledger
    → Option (List (String × Counter))
    → Option (List (String × Counter))
    → Option (List (String × Counter))
    → Option Ledger
written id row l (some entries) (some runs) (some candidates) = some (record {
  entries = entries;
  runs = runs;
  candidates = candidates;
  reservations = insert id (record row { settled = true }) l.reservations;
})
written id row l _ _ _ = none

unfoldable pub settle_row :
    String → ProviderResult → Reservation → Ledger → Result BudgetError (Option Ledger)
unfolding adjust_section actual
settle_row id r row l =
    adjust_section false row.entry_key (actual r row) row l.entries >>= λ entries.
    adjust_section true row.run_key (actual r row) row l.runs >>= λ runs.
    adjust_section false row.candidate_key (actual r row) row l.candidates >>= λ candidates.
    ok (written id row l entries runs candidates)

unfoldable pub settle_found :
    String → ProviderResult → Option Reservation → Ledger → Result BudgetError (Option Ledger)
settle_found id r none l = err reservation_mismatch
settle_found id r (some row) l =
    if not (str_eq row.provider_id r.provider_id)
    then err reservation_mismatch
    else if row.settled
    then ok (some l)
    else settle_row id r row l

unfoldable pub settle : String → ProviderResult → Ledger → Result BudgetError (Option Ledger)
unfolding settle_found
settle id r l = settle_found id r (lookup id l.reservations) l

-- The reservation is settled, for this provider, in a ledger that reads.
abbrev pub Done : String → String → Option Ledger → Type 0
Done id provider none = Unit
Done id provider (some l) =
    (row : Reservation) × (lookup id l.reservations ≡ some row)
    × (str_eq row.provider_id provider ≡ true)
    × (row.settled ≡ true)

written-Done :
    (id provider : String) (row : Reservation) (l : Ledger)
    (entries runs candidates : Option (List (String × Counter)))
    → str_eq row.provider_id provider ≡ true
    → Done id provider (written id row l entries runs candidates)
unfolding written
written-Done id provider row l (some entries) (some runs) (some candidates) named =
    let marked = record row { settled = true } in
    (marked, lookup-insert_self id marked l.reservations, named, refl)
written-Done id provider row l none runs candidates named = tt
written-Done id provider row l (some entries) none candidates named = tt
written-Done id provider row l (some entries) (some runs) none named = tt

settle_row-Done :
    (id : String) (r : ProviderResult) (row : Reservation) (l : Ledger)
    → str_eq row.provider_id r.provider_id ≡ true
    → AllOk (Done id r.provider_id) (settle_row id r row l)
unfolding settle_row
settle_row-Done id r row l named =
    chain-AllOk (Done id r.provider_id)
      (adjust_section false row.entry_key (actual r row) row l.entries) _
      (λ entries.
        chain-AllOk (Done id r.provider_id)
          (adjust_section true row.run_key (actual r row) row l.runs) _
          (λ runs.
            chain-AllOk (Done id r.provider_id)
              (adjust_section false row.candidate_key (actual r row) row l.candidates) _
              (λ candidates. written-Done id r.provider_id row l entries runs candidates named)))

settle_found-Done :
    (id : String) (r : ProviderResult) (o : Option Reservation) (l : Ledger)
    → lookup id l.reservations ≡ o
    → AllOk (Done id r.provider_id) (settle_found id r o l)
unfolding settle_found
settle_found-Done id r none l e = tt
settle_found-Done id r (some row) l e = elim (Bool-cases (str_eq row.provider_id r.provider_id)) [
  | inl named ↦ rw named (
      if_split (AllOk (Done id r.provider_id)) row.settled (λ s. (row, e, named, s))
        (λ s. settle_row-Done id r row l named))
  | inr other ↦ rw other tt
]

settled-kept :
    (id : String) (r : ProviderResult) (l : Ledger)
    → Done id r.provider_id (some l)
    → settle id r l ≡ ok (some l)
unfolding settle settle_found
settled-kept id r l (row, e, named, s) = rw (e, named, s) refl

-- A settlement that succeeds counts once: settled again with whatever result of the same provider,
-- the ledger stays.
pub settle-once :
    (id : String) (r again : ProviderResult) (l after : Ledger)
    → again.provider_id ≡ r.provider_id
    → settle id r l ≡ ok (some after)
    → settle id again after ≡ ok (some after)
unfolding settle
settle-once id r again l after same_id h =
    let done =
      subst (AllOk (Done id r.provider_id)) h
        (settle_found-Done id r (lookup id l.reservations) l refl) in
    settled-kept id again after (subst (λ p. Done id p (some after)) (sym same_id) done)
