-- ===== src/Budget/Caps.antt =====
-- The caps of src/ei/inference/budget.py over one call and over any sequence of calls.
use portable_external_intell.Prelude.{
  >>=-eq-ok, Bool, Bool-cases, Option, Option-cases, String, arith, false, has, if_elim,
  if◌then◌else◌, inl, inr, is_some, leb, ok, refl, some, subst, true, ℕ, ◌&&◌, ◌≡◌, ◌≤◌,
}
use portable_external_intell.Budget.Ledger.{Amount, Counter, Ledger, Policy}
use portable_external_intell.Budget.Consume.{
  Ask, Budget, BudgetResult, Checked, Refusal, attempts, charged, checked, consume, consume_checked,
  consume_locked, decided, expired, is_reserved, next_candidate, next_day, next_run, over_cost,
  over_tokens, refusal,
}
use portable_external_intell.Budget.Totals.{Field, cost_field, get, input_field, output_field, part}

-- A counter within a cap, in tokens and in cost.
abbrev pub Within : Amount → Counter → Type 0
Within bound c =
    (c.input_tokens ≤ bound.input_tokens)
    × (c.output_tokens ≤ bound.output_tokens)
    × (c.cost ≤ bound.cost)

abbrev pub Under : Amount → Counter → Type 0
Under bound c = (f : Field) → get f c ≤ part f bound

pub Under-Within : (bound : Amount) (c : Counter) → Under bound c → Within bound c
Under-Within bound c h = (h input_field, h output_field, h cost_field)

-- What the tests of the caps leave open.
pub record Admitted (p : Policy) (c : Checked) (l : Ledger) : Type 0 where
  pub run_within : Under p.per_run (next_run c l)
  pub day_within : Under p.per_day (next_day c l)
  pub candidate_within : Under p.per_candidate (next_candidate c l)
  pub attempt_left :
      (is_some c.attempt_id && leb p.retry_limit (attempts c.day c.candidate_key l.reservations))
      ≡ false

within :
    (bound : Amount) (c : Counter)
    → over_tokens c bound ≡ false
    → over_cost c bound ≡ false
    → Under bound c
within bound c h k input_field = ground arith
within bound c h k output_field = ground arith
within bound c h k cost_field = ground arith

-- The tests, one by one.
pub record Passed (p : Policy) (c : Checked) (tried : ℕ) (run day candidate : Counter)
    : Type 0 where
  pub tries : (is_some c.attempt_id && leb p.retry_limit tried) ≡ false
  pub run_tokens : over_tokens run p.per_run ≡ false
  pub day_tokens : over_tokens day p.per_day ≡ false
  pub candidate_tokens : over_tokens candidate p.per_candidate ≡ false
  pub run_cost : over_cost run p.per_run ≡ false
  pub day_cost : over_cost day p.per_day ≡ false
  pub candidate_cost : over_cost candidate p.per_candidate ≡ false

-- No refusal at a test: it is not met, and what comes behind it refuses nothing either.
next_test :
    (test : Bool) (r : Refusal) (behind : Option Refusal)
    → is_some (if test then some r else behind) ≡ false
    → (test ≡ false) × (is_some behind ≡ false)
next_test true r behind h = cc
next_test false r behind h = (refl, h)

refusal-Passed :
    (p : Policy) (c : Checked) (tried : ℕ) (run day candidate : Counter)
    → is_some (refusal p c tried run day candidate) ≡ false
    → Passed p c tried run day candidate
unfolding refusal
refusal-Passed p c tried run day candidate h =
    let (tries, h₁) = next_test _ _ _ h in
    let (run_tokens, h₂) = next_test _ _ _ h₁ in
    let (day_tokens, h₃) = next_test _ _ _ h₂ in
    let (candidate_tokens, h₄) = next_test _ _ _ h₃ in
    let (run_cost, h₅) = next_test _ _ _ h₄ in
    let (day_cost, h₆) = next_test _ _ _ h₅ in
    let (candidate_cost, h₇) = next_test _ _ _ h₆ in
    record {
      tries = tries;
      run_tokens = run_tokens;
      day_tokens = day_tokens;
      candidate_tokens = candidate_tokens;
      run_cost = run_cost;
      day_cost = day_cost;
      candidate_cost = candidate_cost;
    }

decided-Admitted :
    (p : Policy) (c : Checked) (l : Ledger) → is_some (decided p c l) ≡ false → Admitted p c l
unfolding decided
decided-Admitted p c l h =
    let t =
      refusal-Passed p c (attempts c.day c.candidate_key l.reservations) (next_run c l)
        (next_day c l) (next_candidate c l) h in
    record {
      run_within = within p.per_run (next_run c l) t.run_tokens t.run_cost;
      day_within = within p.per_day (next_day c l) t.day_tokens t.day_cost;
      candidate_within =
          within p.per_candidate (next_candidate c l) t.candidate_tokens t.candidate_cost;
      attempt_left = t.tries;
    }

-- What a call does with the ledger: it leaves it, or it was admitted and charges it.
pub data Outcome (p : Policy) (c : Checked) (l : Ledger) : BudgetResult × Ledger → Type 0 where
  refused : (r : BudgetResult) → r.allowed ≡ false → Outcome p c l (r, l)
  admitted :
      (r : BudgetResult)
      → r.allowed ≡ true
      → Admitted p c l
      → is_reserved c.attempt_id l.reservations ≡ false
      → Outcome p c l (r, charged c l)

consume_locked-Outcome :
    (p : Policy) (c : Checked) (l : Ledger) → Outcome p c l (consume_locked p c l)
unfolding consume_locked
consume_locked-Outcome p c l = elim (Bool-cases (is_reserved c.attempt_id l.reservations)) [
  | inl e ↦ rw e (refused _ refl)
  | inr e ↦ elim (Option-cases (decided p c l)) [
    | inl d ↦ rw (e, d) (admitted _ refl (decided-Admitted p c l (rw d refl)) e)
    | inr (r, d) ↦ rw (e, d) (refused _ refl)
  ]
]

consume_checked-Outcome :
    (b : Budget) (a : Ask) (c : Checked) (l : Ledger)
    → Outcome b.policy c l (consume_checked b a c l)
unfolding consume_checked
consume_checked-Outcome b a c l =
    if_elim (Outcome b.policy c l) (has b.disabled_providers c.provider_id) (refused _ refl) (
      if_elim (Outcome b.policy c l) (expired a.deadline_ms) (refused _ refl)
        (consume_locked-Outcome b.policy c l))

-- A call that returns has checked its arguments, and has one of the two outcomes.
pub consume-Outcome :
    (digest : String → String) (b : Budget) (a : Ask) (l : Ledger) (out : BudgetResult × Ledger)
    → consume digest b a l ≡ ok out
    → (c : Checked) × (checked digest b a ≡ ok c) × Outcome b.policy c l out
unfolding consume
consume-Outcome digest b a l out h =
    let (c, e, k) = >>=-eq-ok (checked digest b a) (λ c. ok (consume_checked b a c l)) h in
    let same_out : consume_checked b a c l ≡ out = ground arith in
    (c, e, subst (Outcome b.policy c l) same_out (consume_checked-Outcome b a c l))
