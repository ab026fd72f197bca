-- ===== src/Router/Generate.antt =====
-- `generate` of src/ei/inference/router.py: it reserves in the ledger of src/ei/inference/budget.py, calls the
-- provider at most once, and settles with its result. What the provider comes to, the clock and the calls of
-- others between the reservation and the settlement are arguments.
use portable_external_intell.Prelude.{
  Bool, List, Option, Result, String, [], err, false, if◌then◌else◌, leb, none, not, ok, some,
  str_eq, true, ℕ, ◌>>=◌, ◌∷◌,
}
use portable_external_intell.Budget.Ledger.{Amount, BudgetError, Ledger}
use portable_external_intell.Budget.Consume.{
  Ask, Budget, BudgetResult, InferenceBudget, consume, reserve,
}
use portable_external_intell.Budget.Settle.{ProviderResult, settle}
use portable_external_intell.Router.Choice.{
  Provider, Router, RouterError, inference_task_required, selected,
}

-- The result that a caller gets.
pub record Reply : Type 0 where
  pub provider_id : String
  pub status : String
  pub error_code : Option String
  pub used : Amount
  pub usage_known : Bool
  pub cost_known : Bool
  pub admission_refused : Bool

-- The file of the ledger: a ledger, or what `_read` refuses.
pub data LedgerFile : Type 0 where
  broken : LedgerFile
  reads : Ledger → LedgerFile

-- What others do with the ledger.
pub data LedgerEvent : Type 0 where
  consumes : (b : Budget) (a : Ask) → LedgerEvent
  settles : (id : String) (r : ProviderResult) → LedgerEvent

pub data CallOutcome : Type 0 where
  raised : CallOutcome
  replied : Reply → CallOutcome

-- A call of `generate`, with what happens around it: the fresh identifier, the day, the milliseconds since its
-- start, whether the lock or the disk fails it at the reservation and at the settlement.
pub record Request : Type 0 where
  pub stage : String
  pub limits : InferenceBudget
  pub attempt_id : String
  pub fresh_id : String
  pub day : String
  pub elapsed_ms : ℕ
  pub reserve_fails : Bool
  pub settle_fails : Bool
  pub outcome : CallOutcome
  pub others : List LedgerEvent

-- The reply, the ledger behind it, and the attempts with which the provider was called.
pub record Generated : Type 0 where
  pub reply : Reply
  pub file : LedgerFile
  pub calls : List String

abbrev pub nothing_used : Amount
nothing_used = record { input_tokens = 0; output_tokens = 0; cost = 0 }

abbrev pub plain : String → String → String → Bool → Reply
plain provider status code refused = record {
  provider_id = provider;
  status = status;
  error_code = some code;
  used = nothing_used;
  usage_known = false;
  cost_known = false;
  admission_refused = refused;
}

abbrev pub deferred_reply : String → String → Reply
deferred_reply provider code = plain provider "deferred" code false

-- A result as the ledger reads it.
abbrev pub for_ledger : Reply → ProviderResult
for_ledger r = record {
  provider_id = r.provider_id;
  success = str_eq r.status "success";
  used = r.used;
  usage_known = r.usage_known;
  cost_known = r.cost_known;
}

abbrev pub file_of : Option Ledger → LedgerFile
file_of none = broken
file_of (some l) = reads l

-- `attempt_id or uuid4().hex`
abbrev pub attempt_of : Request → String
attempt_of q = if str_eq q.attempt_id "" then q.fresh_id else q.attempt_id

-- An exception of the provider is a failed result.
abbrev pub result_of : Provider → CallOutcome → Reply
result_of p raised = plain p.provider_id "failed" "PROVIDER_UNAVAILABLE" false
result_of p (replied r) = r

-- `_ledger_for`
abbrev pub ledger_for : Router → InferenceBudget → Option Budget
ledger_for r limits = elim r.budget_ledger [
  | some b ↦ some b
  | none ↦ elim r.settings [ none ↦ none | some make ↦ some (make limits) ]
]

abbrev pub settled_file : Result BudgetError (Option Ledger) → LedgerFile → LedgerFile
settled_file (ok l) f = file_of l
settled_file (err e) f = f

abbrev pub consumed_file : Result BudgetError (BudgetResult × Ledger) → LedgerFile → LedgerFile
consumed_file (ok (r, l)) f = reads l
consumed_file (err e) f = f

abbrev pub out_or_none : Result BudgetError (BudgetResult × Ledger) → Option (BudgetResult × Ledger)
out_or_none (ok out) = some out
out_or_none (err e) = none

abbrev pub file_or_none : Result BudgetError (Option Ledger) → Option LedgerFile
file_or_none (ok out) = some (file_of out)
file_or_none (err e) = none

module _ (digest : String → String) where
  unfoldable pub event_file : LedgerEvent → LedgerFile → LedgerFile
  event_file e broken = broken
  event_file (consumes b a) (reads l) = consumed_file (consume digest b a l) (reads l)
  event_file (settles id r) (reads l) = settled_file (settle id r l) (reads l)

  unfoldable pub events_file : List LedgerEvent → LedgerFile → LedgerFile
  events_file [] f = f
  events_file (e ∷ es) f = events_file es (event_file e f)

  abbrev pub reserve_file :
      Budget
      → String
      → String
      → InferenceBudget
      → String
      → LedgerFile
      → Option (BudgetResult × Ledger)
  reserve_file b id provider limits day broken = none
  reserve_file b id provider limits day (reads l) =
      out_or_none (reserve digest b id provider limits day l)

abbrev pub settle_file : String → ProviderResult → LedgerFile → Option LedgerFile
settle_file id r broken = none
settle_file id r (reads l) = file_or_none (settle id r l)

abbrev pub storage_unavailable : Provider → Reply
storage_unavailable p = deferred_reply p.provider_id "BUDGET_STORAGE_UNAVAILABLE"

-- Behind the call: the settlement, and the flag that only the router may set.
abbrev pub reply_settled : Provider → Reply → String → Option LedgerFile → LedgerFile → Generated
reply_settled p result id none f = record {
  reply = storage_unavailable p;
  file = f;
  calls = id ∷ [];
}
reply_settled p result id (some g) f = record {
  reply = record result { admission_refused = false };
  file = g;
  calls = id ∷ [];
}

module _ (digest : String → String) where
  unfoldable pub called : Provider → Request → String → LedgerFile → Generated
  called p q id f =
      let g = events_file digest q.others f in
      let result = result_of p q.outcome in
      let settled = if q.settle_fails then none else settle_file id (for_ledger result) g in
      reply_settled p result id settled g

  -- Behind an answer of the ledger.
  unfoldable pub admitted_call : Provider → Request → String → BudgetResult → LedgerFile → Generated
  admitted_call p q id r f =
      if not r.allowed
      then record {
        reply = plain p.provider_id "deferred" r.reason_code true;
        file = f;
        calls = [];
      }
      else if leb q.limits.deadline_ms q.elapsed_ms
      then record { reply = deferred_reply p.provider_id "DEADLINE_EXCEEDED"; file = f; calls = [] }
      else called p q id f

  abbrev pub reserved_call :
      Provider → Request → String → Option (BudgetResult × Ledger) → LedgerFile → Generated
  reserved_call p q id none f = record { reply = storage_unavailable p; file = f; calls = [] }
  reserved_call p q id (some (r, l)) f = admitted_call p q id r (reads l)

  abbrev pub with_ledger : Provider → Request → Option Budget → LedgerFile → Generated
  with_ledger p q none f = record {
    reply = deferred_reply p.provider_id "BUDGET_LEDGER_REQUIRED";
    file = f;
    calls = [];
  }
  with_ledger p q (some b) f =
      let id = attempt_of q in
      let out =
        if q.reserve_fails then none else reserve_file digest b id p.provider_id q.limits q.day f in
      reserved_call p q id out f

  unfoldable pub route : Router → Request → Provider → LedgerFile → Generated
  route r q p f =
      if str_eq p.locality "cloud"
      then record {
        reply = deferred_reply p.provider_id "PROVIDER_COST_UNKNOWN";
        file = f;
        calls = [];
      }
      else with_ledger p q (ledger_for r q.limits) f

  -- `generate`
  unfoldable pub generate : Router → Request → LedgerFile → Result RouterError Generated
  generate r q f =
      if str_eq q.stage ""
      then err inference_task_required
      else selected r >>= λ p. ok (route r q p f)
