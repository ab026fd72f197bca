-- ===== src/Budget/Consume.antt =====
-- `consume` and `reserve` of src/ei/inference/budget.py. The day is the text of the moment's date, and
-- the digest of a candidate is a parameter.
use Prim.Native.String.{count, ◌++◌ as ◌⧺◌}
use text.Mathlib.Text.{starts_with}
use portable_external_intell.Prelude.{
  Bool, List, Option, Result, String, [], err, false, has, if◌then◌else◌, insert, is_some, leb,
  lookup, ltb, none, not, ok, some, str_eq, suc, true, ℕ, ◌&&◌, ◌-◌, ◌==◌, ◌>>=◌, ◌||◌, ◌∷◌,
}
use portable_external_intell.Budget.Ledger.{
  Amount, BudgetError, Counter, Ledger, Policy, Reservation, add, budget_candidate_invalid,
  budget_id_invalid, counter, counter_or_new, new_counter, provider_id_invalid, safe_id, total,
}

-- The ledger object.
pub record Budget : Type 0 where
  pub policy : Policy
  pub run_id : String
  pub candidate_id : String
  pub purpose : String
  pub disabled_providers : List String

-- The arguments of a call.
pub record Ask : Type 0 where
  pub provider_id : String
  pub wanted : Amount
  pub day : String
  pub purpose : Option String
  pub candidate_id : Option String
  pub run_id : Option String
  pub deadline_ms : Option ℕ
  pub attempt_id : Option String

pub data Remaining : Type 0 where
  unsaid : Remaining
  at_scope : String → Remaining
  tokens_left : (run day candidate : ℕ) → Remaining

pub record BudgetResult : Type 0 where
  pub allowed : Bool
  pub reason_code : String
  pub provider_id : String
  pub purpose : String
  pub wanted : Amount
  pub run : Counter
  pub day : Counter
  pub candidate : Counter
  pub remaining : Remaining

-- What a call works with once its arguments are checked.
pub record Checked : Type 0 where
  pub provider_id : String
  pub wanted : Amount
  pub day : String
  pub purpose : String
  pub candidate_key : String
  pub run_id : String
  pub attempt_id : Option String

-- `a or b` on an optional text.
abbrev pub text_or_else : Option String → String → String
text_or_else none d = d
text_or_else (some t) d = if str_eq t "" then d else t

abbrev pub text_given : Option String → String → String
text_given none d = d
text_given (some t) d = t

abbrev pub entry_key : Checked → String
entry_key c = c.provider_id ⧺ "|" ⧺ c.day ⧺ "|" ⧺ c.purpose

abbrev pub run_prefix : Checked → String
run_prefix c = c.run_id ⧺ "|"

abbrev pub run_key : Checked → String
run_key c = run_prefix c ⧺ (c.provider_id ⧺ "|" ⧺ c.purpose)

module _ (digest : String → String) where
  -- The checks of the arguments, in order.
  unfoldable pub checked : Budget → Ask → Result BudgetError Checked
  checked b a =
      let purpose = text_or_else a.purpose b.purpose in
      let run = text_or_else a.run_id b.run_id in
      let candidate = text_given a.candidate_id b.candidate_id in
      if str_eq a.provider_id "" || not (leb (count a.provider_id) 100)
      then err provider_id_invalid
      else if not (safe_id purpose) || not (safe_id run)
      then err budget_id_invalid
      else if not (leb (count candidate) 200)
      then err budget_candidate_invalid
      else ok (record {
        provider_id = a.provider_id;
        wanted = a.wanted;
        day = a.day;
        purpose = purpose;
        candidate_key = digest (if str_eq candidate "" then "<none>" else candidate);
        run_id = run;
        attempt_id = a.attempt_id;
      })

abbrev pub of_day : String → String → Counter → Bool
of_day day key c = str_eq c.day day

abbrev pub of_run : String → String → Counter → Bool
of_run prefix key c = starts_with key prefix

-- The totals of a ledger that the caps bound: over all providers and purposes.
abbrev pub day_total : String → Ledger → Counter
day_total day l = total (of_day day) day l.entries

abbrev pub run_total : Checked → Ledger → Counter
run_total c l = total (of_run (run_prefix c)) c.day l.runs

abbrev pub candidate_total : Checked → Ledger → Counter
candidate_total c l = counter (lookup c.candidate_key l.candidates) c.day

abbrev pub is_attempt : String → String → Reservation → Bool
is_attempt day candidate_key r = str_eq r.day day && str_eq r.candidate_key candidate_key

unfoldable pub attempts : String → String → List (String × Reservation) → ℕ
attempts day candidate_key [] = 0
attempts day candidate_key ((key, r) ∷ rest) =
    let others = attempts day candidate_key rest in
    if is_attempt day candidate_key r then suc others else others

abbrev pub over_tokens : Counter → Amount → Bool
over_tokens c bound =
    ltb bound.input_tokens c.input_tokens || ltb bound.output_tokens c.output_tokens

abbrev pub over_cost : Counter → Amount → Bool
over_cost c bound = ltb bound.cost c.cost

abbrev pub closed_cloud : Policy → Checked → Counter → Bool
closed_cloud p c day =
    str_eq c.provider_id "cloud-api"
    && (not p.cloud_api_enabled
        || ltb p.cloud_spend_cap c.wanted.cost
        || ltb p.cloud_spend_cap day.cost)

pub record Refusal : Type 0 where
  pub reason : String
  pub scope : Remaining

abbrev refuse : String → Remaining → Option Refusal
refuse reason scope = some (record { reason = reason; scope = scope })

-- The tests of the caps, in order, on the totals with what is asked.
unfoldable pub refusal : Policy → Checked → ℕ → Counter → Counter → Counter → Option Refusal
refusal p c tried run day candidate =
    if is_some c.attempt_id && leb p.retry_limit tried
    then refuse "ATTEMPT_CAP_EXCEEDED" unsaid
    else if over_tokens run p.per_run
    then refuse "TOKEN_CAP_EXCEEDED" (at_scope "per_run")
    else if over_tokens day p.per_day
    then refuse "TOKEN_CAP_EXCEEDED" (at_scope "per_day")
    else if over_tokens candidate p.per_candidate
    then refuse "TOKEN_CAP_EXCEEDED" (at_scope "per_candidate")
    else if over_cost run p.per_run
    then refuse "COST_CAP_EXCEEDED" (at_scope "per_run")
    else if over_cost day p.per_day
    then refuse "COST_CAP_EXCEEDED" (at_scope "per_day")
    else if over_cost candidate p.per_candidate
    then refuse "COST_CAP_EXCEEDED" (at_scope "per_candidate")
    else if closed_cloud p c day
    then refuse "PROVIDER_DISABLED" (at_scope "cloud_api")
    else none

abbrev pub answer : Bool → String → Checked → Counter → Counter → Counter → Remaining → BudgetResult
answer allowed reason c run day candidate remaining = record {
  allowed = allowed;
  reason_code = reason;
  provider_id = c.provider_id;
  purpose = c.purpose;
  wanted = c.wanted;
  run = run;
  day = day;
  candidate = candidate;
  remaining = remaining;
}

-- The counters of the ledger that a call is charged to.
abbrev pub own_entry : Checked → Ledger → Counter
own_entry c l = counter (lookup (entry_key c) l.entries) c.day

abbrev pub own_run : Checked → Ledger → Counter
own_run c l = counter_or_new (lookup (run_key c) l.runs)

abbrev pub reservation_of : Checked → Reservation
reservation_of c = record {
  provider_id = c.provider_id;
  day = c.day;
  entry_key = entry_key c;
  run_key = run_key c;
  candidate_key = c.candidate_key;
  reserved = c.wanted;
  settled = false;
}

abbrev pub reserve_in : Checked → List (String × Reservation) → List (String × Reservation)
reserve_in c rows = elim c.attempt_id [ none ↦ rows | some id ↦ insert id (reservation_of c) rows ]

-- The ledger that an admitted call writes.
unfoldable pub charged : Checked → Ledger → Ledger
charged c l = record {
  entries = insert (entry_key c) (add (own_entry c l) c.wanted c.day) l.entries;
  runs = insert (run_key c) (add (own_run c l) c.wanted c.day) l.runs;
  candidates = insert c.candidate_key (add (candidate_total c l) c.wanted c.day) l.candidates;
  reservations = reserve_in c l.reservations;
}

abbrev pub is_reserved : Option String → List (String × Reservation) → Bool
is_reserved none rows = false
is_reserved (some id) rows = is_some (lookup id rows)

-- The totals as the call would leave them.
abbrev pub next_run : Checked → Ledger → Counter
next_run c l = add (run_total c l) c.wanted c.day

abbrev pub next_day : Checked → Ledger → Counter
next_day c l = add (day_total c.day l) c.wanted c.day

abbrev pub next_candidate : Checked → Ledger → Counter
next_candidate c l = add (candidate_total c l) c.wanted c.day

unfoldable pub tokens_after : Policy → Checked → Ledger → Remaining
tokens_after p c l =
    tokens_left (p.per_run.input_tokens - (next_run c l).input_tokens)
      (p.per_day.input_tokens - (next_day c l).input_tokens)
      (p.per_candidate.input_tokens - (next_candidate c l).input_tokens)

unfoldable pub decided : Policy → Checked → Ledger → Option Refusal
decided p c l =
    refusal p c (attempts c.day c.candidate_key l.reservations) (next_run c l) (next_day c l)
      (next_candidate c l)

-- What happens under the lock.
unfoldable pub consume_locked : Policy → Checked → Ledger → BudgetResult × Ledger
unfolding tokens_after
consume_locked p c l =
    if is_reserved c.attempt_id l.reservations
    then (answer false "ATTEMPT_ALREADY_RESERVED" c new_counter new_counter new_counter unsaid, l)
    else elim (decided p c l) [
      | some r ↦
          (answer false r.reason c (own_run c l) (own_entry c l) (candidate_total c l) r.scope, l)
      | none ↦ (
        answer true "ALLOW" c (next_run c l) (next_day c l) (next_candidate c l)
            (tokens_after p c l),
        charged c l,
      )
    ]

-- `deadline_ms is not None and deadline_ms <= 0`
abbrev pub expired : Option ℕ → Bool
expired none = false
expired (some ms) = ms == 0

unfoldable pub consume_checked : Budget → Ask → Checked → Ledger → BudgetResult × Ledger
unfolding consume_locked
consume_checked b a c l =
    if has b.disabled_providers c.provider_id
    then (answer false "PROVIDER_DISABLED" c new_counter new_counter new_counter unsaid, l)
    else if expired a.deadline_ms
    then (answer false "DEADLINE_EXCEEDED" c new_counter new_counter new_counter unsaid, l)
    else consume_locked b.policy c l

unfoldable pub consume :
    (String → String) → Budget → Ask → Ledger → Result BudgetError (BudgetResult × Ledger)
unfolding consume_checked
consume digest b a l = checked digest b a >>= λ c. ok (consume_checked b a c l)

-- `InferenceBudget`, as far as a reservation reads it.
pub record InferenceBudget : Type 0 where
  pub wanted : Amount
  pub deadline_ms : ℕ
  pub candidate_id : String
  pub purpose : String
  pub run_id : String

abbrev pub ask_of : Budget → String → String → InferenceBudget → String → Ask
ask_of b id provider limits day = record {
  provider_id = provider;
  wanted = limits.wanted;
  day = day;
  purpose = some limits.purpose;
  candidate_id = some limits.candidate_id;
  run_id = some (text_or_else (some limits.run_id) b.run_id);
  deadline_ms = some limits.deadline_ms;
  attempt_id = some id;
}

unfoldable pub reserve :
    (String → String)
    → Budget
    → String
    → String
    → InferenceBudget
    → String
    → Ledger
    → Result BudgetError (BudgetResult × Ledger)
reserve digest b id provider limits day l =
    if safe_id id
    then consume digest b (ask_of b id provider limits day) l
    else err budget_id_invalid
