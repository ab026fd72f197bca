-- ===== src/Budget/Limits.antt =====
-- What the calls of src/ei/inference/budget.py promise: the caps hold behind every admitted call, and
-- behind any sequence of calls.
use portable_external_intell.Prelude.{
  All, List, Result, Result-cases, String, [], arith, err, false, inl, inr, ok, refl, subst, true,
  ℕ, ◌+◌, ◌∷◌, ◌≡◌, ◌≤◌,
}
use portable_external_intell.Budget.Ledger.{BudgetError, Counter, Ledger, Policy, add}
use portable_external_intell.Budget.Consume.{
  Ask, Budget, BudgetResult, Checked, candidate_total, charged, checked, consume, day_total,
  is_reserved, run_total,
}
use portable_external_intell.Budget.Totals.{Field, get, get-add, part}
use portable_external_intell.Budget.Charge.{
  candidate_total-charged, day_total-charged, run_total-charged,
}
use portable_external_intell.Budget.Caps.{
  Admitted, Outcome, Under, Under-Within, Within, admitted, consume-Outcome, refused,
}

-- The caps of one call.
pub record Capped (p : Policy) (c : Checked) (l : Ledger) : Type 0 where
  pub run : Within p.per_run (run_total c l)
  pub day : Within p.per_day (day_total c.day l)
  pub candidate : Within p.per_candidate (candidate_total c l)

charged-Within :
    (f : Field) (c : Checked) (a : Counter) (b : Counter) (limit : ℕ)
    → get f b ≡ get f a + part f c.wanted
    → get f (add a c.wanted c.day) ≤ limit
    → get f b ≤ limit
charged-Within f c a b limit e h = let k = get-add f a c.wanted c.day in omega arith

today-Under :
    (p : Policy) (c : Checked) (l : Ledger)
    → Admitted p c l
    → Under p.per_day (day_total c.day (charged c l))
today-Under p c l a f =
    charged-Within f c (day_total c.day l) (day_total c.day (charged c l)) (part f p.per_day)
      (day_total-charged f c l) (a.day_within f)

charged-Capped : (p : Policy) (c : Checked) (l : Ledger) → Admitted p c l → Capped p c (charged c l)
charged-Capped p c l a = record {
  run = Under-Within p.per_run (run_total c (charged c l)) (λ f.
      charged-Within f c (run_total c l) (run_total c (charged c l)) (part f p.per_run)
        (run_total-charged f c l) (a.run_within f));
  day = Under-Within p.per_day (day_total c.day (charged c l)) (today-Under p c l a);
  candidate = Under-Within p.per_candidate (candidate_total c (charged c l)) (λ f.
      charged-Within f c (candidate_total c l) (candidate_total c (charged c l))
        (part f p.per_candidate) (candidate_total-charged f c l) (a.candidate_within f));
}

outcome-Capped :
    (p : Policy) (c : Checked) (l : Ledger) (out : BudgetResult × Ledger)
    → Outcome p c l out
    → (out.0).allowed ≡ true
    → Capped p c out.1
outcome-Capped p c l _ (refused r e) h = cc
outcome-Capped p c l _ (admitted r y a e) h = charged-Capped p c l a

-- Behind an admitted call the totals of its run, of its day over all providers and purposes, and of its
-- candidate are within the policy's caps, in tokens and in cost.
pub consume-Capped :
    (digest : String → String) (b : Budget) (a : Ask) (l : Ledger) (r : BudgetResult)
    (after : Ledger)
    → consume digest b a l ≡ ok (r, after)
    → r.allowed ≡ true
    → (c : Checked) × (checked digest b a ≡ ok c) × Capped b.policy c after
consume-Capped digest b a l r after h allowed =
    let (c, e, o) = consume-Outcome digest b a l (r, after) h in
    (c, e, outcome-Capped b.policy c l (r, after) o allowed)

outcome-Kept :
    (p : Policy) (c : Checked) (l : Ledger) (out : BudgetResult × Ledger)
    → Outcome p c l out
    → (out.0).allowed ≡ false
    → out.1 ≡ l
outcome-Kept p c l _ (refused r e) h = refl
outcome-Kept p c l _ (admitted r y a e) h = cc

-- A refused call leaves the ledger as it was.
pub refused-keeps :
    (digest : String → String) (b : Budget) (a : Ask) (l : Ledger) (r : BudgetResult)
    (after : Ledger)
    → consume digest b a l ≡ ok (r, after)
    → r.allowed ≡ false
    → after ≡ l
refused-keeps digest b a l r after h no_call =
    let (c, e, o) = consume-Outcome digest b a l (r, after) h in
    outcome-Kept b.policy c l (r, after) o no_call

-- The ledger behind a call, which is as it was where the call raises.
abbrev pub ledger_after : Result BudgetError (BudgetResult × Ledger) → Ledger → Ledger
ledger_after (ok (r, after)) l = after
ledger_after (err e) l = l

-- Calls of any ledger objects on one file.
abbrev pub consume_all : (String → String) → List (Budget × Ask) → Ledger → Ledger
consume_all digest [] l = l
consume_all digest ((b, a) ∷ calls) l =
    consume_all digest calls (ledger_after (consume digest b a l) l)

-- What holds of a ledger, and of what every admitted call makes of one, holds behind every call.
after_call :
    (p : Policy) (Holds : Ledger → Type 0)
    → ((c : Checked) (l : Ledger)
        → Admitted p c l
        → is_reserved c.attempt_id l.reservations ≡ false
        → Holds l
        → Holds (charged c l))
    → (c : Checked) (l : Ledger) (out : BudgetResult × Ledger) → Outcome p c l out
    → Holds l
    → Holds out.1
after_call p Holds keeps c l _ (refused r e) h = h
after_call p Holds keeps c l _ (admitted r y a e) h = keeps c l a e h

pub all_calls :
    (digest : String → String) (p : Policy) (Holds : Ledger → Type 0)
    → ((c : Checked) (l : Ledger)
        → Admitted p c l
        → is_reserved c.attempt_id l.reservations ≡ false
        → Holds l
        → Holds (charged c l))
    → (calls : List (Budget × Ask)) (l : Ledger) → All (λ call. call.0.policy ≡ p) calls
    → Holds l
    → Holds (consume_all digest calls l)
all_calls digest p Holds keeps [] l all h = h
all_calls digest p Holds keeps ((b, a) ∷ calls) l (same_policy, rest) h =
    elim (Result-cases (consume digest b a l)) [
      | inl ((r, after), e) ↦
          let (c, k, o) = consume-Outcome digest b a l (r, after) e in
          let o' = subst (λ q. Outcome q c l (r, after)) same_policy o in
          rw e (
            all_calls digest p Holds keeps calls after rest
              (after_call p Holds keeps c l (r, after) o' h))
      | inr (x, e) ↦ rw e (all_calls digest p Holds keeps calls l rest h)
    ]
