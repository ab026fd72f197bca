-- ===== src/Budget/Attempts.antt =====
-- The reservations of src/ei/inference/budget.py: each attempt once, and so many for a candidate and day.
use Prim.Native.String.{count}
use portable_external_intell.Prelude.{
  All, Bool, Bool-cases, List, Option, Option-cases, Result, String, [], arith, eq_iff, err, false,
  if_elim, if◌then◌else◌, inl, inr, insert, is_some, leb, lookup, lookup-insert, lookup-insert_self,
  not, ok, refl, some, str_eq, subst, true, ℕ, ◌&&◌, ◌+◌, ◌||◌, ◌∙◌, ◌∷◌, ◌≡◌, ◌≤◌,
}
use portable_external_intell.Budget.Ledger.{
  BudgetError, Ledger, Policy, Reservation, no_ledger, safe_id,
}
use portable_external_intell.Budget.Consume.{
  Ask, Budget, BudgetResult, Checked, attempts, charged, checked, consume, is_attempt, is_reserved,
  reservation_of, reserve_in, text_given, text_or_else,
}
use portable_external_intell.Budget.Caps.{Admitted, Outcome, admitted, consume-Outcome, refused}
use portable_external_intell.Budget.Limits.{all_calls, consume_all}

abbrev one_if : Bool → ℕ
one_if b = if b then 1 else 0

attempts-cons :
    (day key id : String) (r : Reservation) (rows : List (String × Reservation))
    → attempts day key ((id, r) ∷ rows) ≡ one_if (is_attempt day key r) + attempts day key rows
unfolding attempts
attempts-cons day key id r rows = elim (Bool-cases (is_attempt day key r)) [
  | inl e ↦ rw e (omega arith)
  | inr e ↦ rw e (omega arith)
]

attempts-insert :
    (day key id : String) (r : Reservation) (rows : List (String × Reservation))
    → is_some (lookup id rows) ≡ false
    → attempts day key (insert id r rows) ≡ one_if (is_attempt day key r) + attempts day key rows
unfolding insert lookup
attempts-insert day key id r [] h = attempts-cons day key id r []
attempts-insert day key id r ((here, w) ∷ rows) h = elim (Bool-cases (str_eq here id)) [
  | inl e ↦ let found : true ≡ false = rw e at h in cc
  | inr e ↦
      let h' : is_some (lookup id rows) ≡ false = rw e at h in
      let below = attempts-insert day key id r rows h' in
      rw (e, attempts-cons day key here w (insert id r rows), attempts-cons day key here w rows)
        (omega (arith, below))
]

one_more :
    (day key own_day own_key : String) (rows : List (String × Reservation)) (limit : ℕ)
    → leb limit (attempts own_day own_key rows) ≡ false
    → attempts day key rows ≤ limit
    → one_if (str_eq own_day day && str_eq own_key key) + attempts day key rows ≤ limit
one_more day key own_day own_key rows limit left h =
    elim (Bool-cases (str_eq own_day day && str_eq own_key key)) [
      | inl e ↦
          let one : own_day ≡ day = ground (arith, eq_iff own_day day) in
          let two : own_key ≡ key = ground (arith, eq_iff own_key key) in
          let left' : leb limit (attempts day key rows) ≡ false = rw (one, two) at left in
          rw e (ground arith)
      | inr e ↦ rw e (omega arith)
    ]

reserved-Bound :
    (p : Policy) (day key : String) (c : Checked) (l : Ledger)
    → Admitted p c l
    → is_reserved c.attempt_id l.reservations ≡ false
    → attempts day key l.reservations ≤ p.retry_limit
    → attempts day key (reserve_in c l.reservations) ≤ p.retry_limit
reserved-Bound p day key c l a e h = elim (Option-cases c.attempt_id) [
  | inl k ↦ rw k h
  | inr (id, k) ↦
      let free : is_some (lookup id l.reservations) ≡ false = rw k at e in
      let left : leb p.retry_limit (attempts c.day c.candidate_key l.reservations) ≡ false =
        rw k at a.attempt_left in
      let grown = attempts-insert day key id (reservation_of c) l.reservations free in
      rw (k, grown) (one_more day key c.day c.candidate_key l.reservations p.retry_limit left h)
]

attempts-Kept :
    (p : Policy) (day key : String) (c : Checked) (l : Ledger)
    → Admitted p c l
    → is_reserved c.attempt_id l.reservations ≡ false
    → attempts day key l.reservations ≤ p.retry_limit
    → attempts day key (charged c l).reservations ≤ p.retry_limit
unfolding charged
attempts-Kept p day key c l a e h = reserved-Bound p day key c l a e h

none_tried : (limit : ℕ) (day key : String) → attempts day key [] ≤ limit
unfolding attempts
none_tried limit day key = omega arith

-- From an empty ledger, over any sequence of calls of objects with one policy, no more attempts
-- are reserved for a candidate on a day than the policy's limit of retries.
pub attempts-bound :
    (digest : String → String) (p : Policy) (calls : List (Budget × Ask)) (day key : String)
    → All (λ call. call.0.policy ≡ p) calls
    → attempts day key (consume_all digest calls no_ledger).reservations ≤ p.retry_limit
attempts-bound digest p calls day key all =
    all_calls digest p (λ l. attempts day key l.reservations ≤ p.retry_limit)
      (attempts-Kept p day key) calls no_ledger all (none_tried p.retry_limit day key)

-- A reservation stays.
reserve_in-keeps :
    (id : String) (c : Checked) (rows : List (String × Reservation))
    → is_some (lookup id rows) ≡ true
    → is_some (lookup id (reserve_in c rows)) ≡ true
reserve_in-keeps id c rows h = elim (Option-cases c.attempt_id) [
  | inl k ↦ rw k h
  | inr (j, k) ↦ rw (k, lookup-insert) (ground arith)
]

pub stays :
    (id : String) (p : Policy) (c : Checked) (l : Ledger)
    → Admitted p c l
    → is_reserved c.attempt_id l.reservations ≡ false
    → is_some (lookup id l.reservations) ≡ true
    → is_some (lookup id (charged c l).reservations) ≡ true
unfolding charged
stays id p c l a e h = reserve_in-keeps id c l.reservations h

abbrev Attempt : Option String → Result BudgetError Checked → Type 0
Attempt id (ok c) = c.attempt_id ≡ id
Attempt id (err e) = Unit

checked-Attempt :
    (digest : String → String) (b : Budget) (a : Ask) → Attempt a.attempt_id (checked digest b a)
unfolding checked
checked-Attempt digest b a =
    if_elim (Attempt a.attempt_id) (str_eq a.provider_id "" || not (leb (count a.provider_id) 100))
      tt
      (if_elim (Attempt a.attempt_id)
        (not (safe_id (text_or_else a.purpose b.purpose))
          || not (safe_id (text_or_else a.run_id b.run_id)))
        tt
        (if_elim (Attempt a.attempt_id)
          (not (leb (count (text_given a.candidate_id b.candidate_id)) 200)) tt refl))

pub outcome-Reserved :
    (p : Policy) (c : Checked) (l : Ledger) (out : BudgetResult × Ledger) (id : String)
    → Outcome p c l out
    → (out.0).allowed ≡ true
    → c.attempt_id ≡ some id
    → is_some (lookup id (out.1).reservations) ≡ true
unfolding charged
outcome-Reserved p c l _ id (refused r e) h k = cc
outcome-Reserved p c l _ id (admitted r y a e) h k =
    rw (k, lookup-insert_self id (reservation_of c) l.reservations) refl

pub outcome-Taken :
    (p : Policy) (c : Checked) (l : Ledger) (out : BudgetResult × Ledger) (id : String)
    → Outcome p c l out
    → is_some (lookup id l.reservations) ≡ true
    → c.attempt_id ≡ some id
    → (out.0).allowed ≡ false
outcome-Taken p c l _ id (refused r e) h k = e
outcome-Taken p c l _ id (admitted r y a e) h k =
    let free : is_some (lookup id l.reservations) ≡ false = rw k at e in cc

pub own_attempt :
    (digest : String → String) (b : Budget) (a : Ask) {c : Checked} {id : String}
    → checked digest b a ≡ ok c
    → a.attempt_id ≡ some id
    → c.attempt_id ≡ some id
own_attempt digest b a e k = subst (Attempt a.attempt_id) e (checked-Attempt digest b a) ∙ k

-- An attempt that was admitted is not admitted again behind any sequence of calls of objects with
-- one policy: the same attempt is not charged twice.
pub reserve-once :
    (digest : String → String) (p : Policy) (id : String) (b : Budget) (a : Ask) (l : Ledger)
    (r : BudgetResult) (after : Ledger) (calls : List (Budget × Ask)) (b₂ : Budget) (a₂ : Ask)
    (r₂ : BudgetResult) (last : Ledger)
    → a.attempt_id ≡ some id
    → a₂.attempt_id ≡ some id
    → consume digest b a l ≡ ok (r, after)
    → r.allowed ≡ true
    → All (λ call. call.0.policy ≡ p) calls
    → consume digest b₂ a₂ (consume_all digest calls after) ≡ ok (r₂, last)
    → r₂.allowed ≡ false
reserve-once digest p id b a l r after calls b₂ a₂ r₂ last k k₂ h yes_allowed all h₂ =
    let (c, e, o) = consume-Outcome digest b a l (r, after) h in
    let here =
      outcome-Reserved b.policy c l (r, after) id o yes_allowed (own_attempt digest b a e k) in
    let there =
      all_calls digest p (λ m. is_some (lookup id m.reservations) ≡ true) (stays id p) calls after
        all here in
    let (c₂, e₂, o₂) =
      consume-Outcome digest b₂ a₂ (consume_all digest calls after) (r₂, last) h₂ in
    outcome-Taken b₂.policy c₂ (consume_all digest calls after) (r₂, last) id o₂ there
      (own_attempt digest b₂ a₂ e₂ k₂)
