-- ===== src/Budget/Ledger.antt =====
-- The policy, the counters and the ledger file of src/ei/inference/budget.py. A cost is counted in units
-- of 0.00000001, to which the code rounds every amount.
use Prim.Native.String.{count}
use portable_external_intell.Prelude.{
  Bool, List, Option, Result, String, [], err, if◌then◌else◌, is_nil, leb, none, not, ok, some,
  str_eq, ℕ, ◌&&◌, ◌+◌, ◌==◌, ◌∷◌,
}

pub record Amount : Type 0 where
  pub input_tokens : ℕ
  pub output_tokens : ℕ
  pub cost : ℕ

-- A counter; no day is the empty text.
pub record Counter : Type 0 where
  pub input_tokens : ℕ
  pub output_tokens : ℕ
  pub cost : ℕ
  pub day : String

pub record Policy : Type 0 where
  pub schema_version : ℕ
  pub mode : String
  pub per_run : Amount
  pub per_day : Amount
  pub per_candidate : Amount
  pub retry_limit : ℕ
  pub deadline_ms : ℕ
  pub max_response_bytes : ℕ
  pub backoff_seconds : List ℕ
  pub cloud_api_enabled : Bool
  pub cloud_spend_cap : ℕ
  pub subscription_on_quota : String

pub data BudgetError : Type 0 where
  policy_schema_unsupported policy_mode_required policy_backoff_invalid : BudgetError
  policy_on_quota_invalid provider_id_invalid budget_id_invalid : BudgetError
  budget_candidate_invalid reservation_mismatch : BudgetError
  ledger_key_missing cost_invalid : BudgetError

-- `BudgetPolicy.__post_init__`, on fields of the kinds that it requires.
unfoldable pub checked_policy : Policy → Result BudgetError Policy
checked_policy p =
    if not (p.schema_version == 1)
    then err policy_schema_unsupported
    else if str_eq p.mode ""
    then err policy_mode_required
    else if is_nil p.backoff_seconds
    then err policy_backoff_invalid
    else if not (str_eq p.subscription_on_quota "DEFERRED_QUOTA")
    then err policy_on_quota_invalid
    else ok p

-- A reservation of one attempt.
pub record Reservation : Type 0 where
  pub provider_id : String
  pub day : String
  pub entry_key : String
  pub run_key : String
  pub candidate_key : String
  pub reserved : Amount
  pub settled : Bool

pub record Ledger : Type 0 where
  pub entries : List (String × Counter)
  pub runs : List (String × Counter)
  pub candidates : List (String × Counter)
  pub reservations : List (String × Reservation)

abbrev pub no_ledger : Ledger
no_ledger = record { entries = []; runs = []; candidates = []; reservations = [] }

abbrev pub new_counter : Counter
new_counter = record { input_tokens = 0; output_tokens = 0; cost = 0; day = "" }

-- `_add`
abbrev pub add : Counter → Amount → String → Counter
add c a day = record {
  input_tokens = c.input_tokens + a.input_tokens;
  output_tokens = c.output_tokens + a.output_tokens;
  cost = c.cost + a.cost;
  day = day;
}

-- `_counter`: a counter of another day starts again.
abbrev pub counter : Option Counter → String → Counter
counter none day = new_counter
counter (some c) day = if str_eq c.day day then c else new_counter

abbrev pub counter_or_new : Option Counter → Counter
counter_or_new none = new_counter
counter_or_new (some c) = c

abbrev pub amount_of : Counter → Amount
amount_of c = record {
  input_tokens = c.input_tokens;
  output_tokens = c.output_tokens;
  cost = c.cost;
}

-- The sum of the counters that a test selects.
unfoldable pub total : (String → Counter → Bool) → String → List (String × Counter) → Counter
total selects day [] = new_counter
total selects day ((key, c) ∷ rest) =
    let others = total selects day rest in
    if selects key c then add others (amount_of c) day else others

-- `_safe_id`
unfoldable pub safe_id : String → Bool
safe_id s = leb 1 (count s) && leb (count s) 200
