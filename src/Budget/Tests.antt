-- ===== src/Budget/Tests.antt =====
-- Calls of the ledger of src/ei/inference/budget.py.
use portable_external_intell.Prelude.{
  Bool, List, Option, Result, String, [], err, false, insert, lookup, none, ok, refl, some, true, ℕ,
  ◌∷◌, ◌≡◌, ◌≤◌,
}
use portable_external_intell.Budget.Ledger.{
  Amount, BudgetError, Ledger, Policy, no_ledger, safe_id, total,
}
use portable_external_intell.Budget.Consume.{
  Ask, Budget, BudgetResult, Checked, attempts, charged, checked, consume, consume_checked,
  consume_locked, decided, refusal, reservation_of,
}
use portable_external_intell.Budget.Limits.{Capped, consume-Capped, consume_all, refused-keeps}
use portable_external_intell.Budget.Attempts.{attempts-bound, reserve-once}
use portable_external_intell.Budget.Settle.{
  ProviderResult, actual, adjust_section, settle, settle-once, settle_found, settle_row, written,
}

abbrev amount : ℕ → ℕ → Amount
amount i o = record { input_tokens = i; output_tokens = o; cost = 0 }

-- The defaults, with one retry.
abbrev policy : Policy
policy = record {
  schema_version = 1;
  mode = "local_first_subscription_only";
  per_run = amount 20000 4000;
  per_day = amount 100000 20000;
  per_candidate = amount 12000 3000;
  retry_limit = 4;
  deadline_ms = 120000;
  max_response_bytes = 262144;
  backoff_seconds = 300 ∷ 900 ∷ [];
  cloud_api_enabled = false;
  cloud_spend_cap = 0;
  subscription_on_quota = "DEFERRED_QUOTA";
}

abbrev budget : Budget
budget = record {
  policy = policy;
  run_id = "run";
  candidate_id = "";
  purpose = "gate";
  disabled_providers = [];
}

abbrev ask : Amount → Ask
ask a = record {
  provider_id = "local";
  wanted = a;
  day = "2025-01-01";
  purpose = none;
  candidate_id = none;
  run_id = none;
  deadline_ms = none;
  attempt_id = some "a1";
}

same_text : String → String
same_text s = s

abbrev small : Ask
small = ask (amount 10 5)

abbrev large : Ask
large = ask (amount 30000 5)

abbrev outcome : Ask → Ledger → Result BudgetError (BudgetResult × Ledger)
outcome a l = consume same_text budget a l

abbrev result_of : Result BudgetError (BudgetResult × Ledger) → Option BudgetResult
result_of (ok (r, l)) = some r
result_of (err e) = none

abbrev allowed_in : Result BudgetError (BudgetResult × Ledger) → Option Bool
allowed_in (ok (r, l)) = some r.allowed
allowed_in (err e) = none

small-allowed : allowed_in (outcome small no_ledger) ≡ some true
unfolding consume consume_checked consume_locked checked decided refusal same_text safe_id total
    attempts lookup
small-allowed = refl

large-refused : allowed_in (outcome large no_ledger) ≡ some false
unfolding consume consume_checked consume_locked checked decided refusal same_text safe_id total
    attempts lookup
large-refused = refl

abbrev checked_of : Ask → Checked
checked_of a = record {
  provider_id = a.provider_id;
  wanted = a.wanted;
  day = a.day;
  purpose = "gate";
  candidate_key = "<none>";
  run_id = "run";
  attempt_id = a.attempt_id;
}

abbrev small_out : BudgetResult × Ledger
small_out = consume_checked budget small (checked_of small) no_ledger

abbrev large_out : BudgetResult × Ledger
large_out = consume_checked budget large (checked_of large) no_ledger

small-runs : outcome small no_ledger ≡ ok (small_out.0, small_out.1)
unfolding consume checked safe_id same_text
small-runs = refl

large-runs : outcome large no_ledger ≡ ok (large_out.0, large_out.1)
unfolding consume checked safe_id same_text
large-runs = refl

small-admitted : small_out.0.allowed ≡ true
unfolding consume_checked consume_locked decided refusal total attempts lookup
small-admitted = refl

large-kept : large_out.0.allowed ≡ false
unfolding consume_checked consume_locked decided refusal total attempts lookup
large-kept = refl

consume-Capped_example :
    (c : Checked) × (checked same_text budget small ≡ ok c) × Capped policy c small_out.1
consume-Capped_example =
    consume-Capped same_text budget small no_ledger small_out.0 small_out.1 small-runs
      small-admitted

refused-keeps_example : large_out.1 ≡ no_ledger
refused-keeps_example =
    refused-keeps same_text budget large no_ledger large_out.0 large_out.1 large-runs large-kept

abbrev two_calls : List (Budget × Ask)
two_calls = (budget, small) ∷ (budget, large) ∷ []

attempts-bound_example :
    attempts "2025-01-01" "<none>" (consume_all same_text two_calls no_ledger).reservations ≤ 4
attempts-bound_example =
    attempts-bound same_text policy two_calls "2025-01-01" "<none>" (refl, (refl, tt))

abbrev again_out : BudgetResult × Ledger
again_out = consume_checked budget small (checked_of small) (consume_all same_text [] small_out.1)

again-runs :
    consume same_text budget small (consume_all same_text [] small_out.1)
    ≡ ok (again_out.0, again_out.1)
unfolding consume checked safe_id same_text
again-runs = refl

reserve-once_example : again_out.0.allowed ≡ false
reserve-once_example =
    reserve-once same_text policy "a1" budget small no_ledger small_out.0 small_out.1 [] budget
      small again_out.0 again_out.1 refl refl small-runs small-admitted tt again-runs

abbrev used : Bool → ProviderResult
used known = record {
  provider_id = "local";
  success = true;
  used = amount 7 2;
  usage_known = known;
  cost_known = known;
}

abbrev charged_ledger : Ledger
charged_ledger = charged (checked_of small) no_ledger

abbrev settled_ledger : Ledger
settled_ledger = record {
  entries =
      (
        "local|2025-01-01|gate",
        record { input_tokens = 7; output_tokens = 2; cost = 0; day = "2025-01-01" },
      )
      ∷ [];
  runs =
      (
        "run|local|gate",
        record { input_tokens = 7; output_tokens = 2; cost = 0; day = "2025-01-01" },
      )
      ∷ [];
  candidates =
      ("<none>", record { input_tokens = 7; output_tokens = 2; cost = 0; day = "2025-01-01" }) ∷ [];
  reservations = ("a1", record (reservation_of (checked_of small)) { settled = true }) ∷ [];
}

settle-small : settle "a1" (used true) charged_ledger ≡ ok (some settled_ledger)
unfolding settle settle_found settle_row adjust_section actual written charged lookup insert
settle-small = refl

settle-once_example : settle "a1" (used false) settled_ledger ≡ ok (some settled_ledger)
settle-once_example =
    settle-once "a1" (used true) (used false) charged_ledger settled_ledger refl settle-small

abbrev ask_on : String → String → ℕ → Ask
ask_on day id tokens = record (ask (amount tokens 0)) { day = day; attempt_id = some id }

-- Three calls for one candidate whose days go back and forth across midnight.
abbrev across_midnight : Ledger
across_midnight =
    consume_all same_text
      ((budget, ask_on "2025-01-02" "a" 100)
        ∷ (budget, ask_on "2025-01-01" "b" 10)
        ∷ (budget, ask_on "2025-01-02" "c" 10)
        ∷ [])
      no_ledger

abbrev unused : ProviderResult
unused = record {
  provider_id = "local";
  success = true;
  used = amount 0 0;
  usage_known = true;
  cost_known = true;
}

-- The counter of the candidate has forgotten the first call, whose settlement makes it negative: the
-- ledger that is written does not read.
settled_below_zero : settle "a" unused across_midnight ≡ ok none
unfolding settle settle_found settle_row adjust_section actual written consume consume_checked
    consume_locked checked charged decided refusal same_text safe_id total attempts lookup insert
settled_below_zero = refl
