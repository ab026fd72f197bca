-- ===== src/Router/Tests.antt =====
-- Calls of the router of src/ei/inference/router.py.
use portable_external_intell.Prelude.{
  List, String, [], false, insert, lookup, none, ok, refl, seconds, some, true, ℕ, ◌+◌, ◌∷◌, ◌≡◌,
  ◌≤◌,
}
use portable_external_intell.Budget.Ledger.{Amount, Policy, no_ledger, safe_id, total}
use portable_external_intell.Budget.Consume.{
  Budget, InferenceBudget, attempts, charged, checked, consume, consume_checked, consume_locked,
  decided, refusal, reserve, tokens_after,
}
use portable_external_intell.Budget.Settle.{
  actual, adjust_section, settle, settle_found, settle_row, written,
}
use portable_external_intell.Router.Choice.{Router, by_id, selected}
use portable_external_intell.Router.Generate.{
  Generated, Reply, Request, admitted_call, called, events_file, generate, plain, reads, replied,
  route,
}
use portable_external_intell.Router.Attempts.{times}
use portable_external_intell.Router.Once.{calls-once, calls_all}
use portable_external_intell.Router.Refusal.{refusal-proves}
use portable_external_intell.Router.Errors.{
  asked, backoff_seconds, classify-waits, classify_provider_error, delay_seconds, error_kind,
  is_deferred, mentions, next_eligible_at,
}

abbrev amount : ℕ → ℕ → Amount
amount i o = record { input_tokens = i; output_tokens = o; cost = 0 }

abbrev policy : Policy
policy = record {
  schema_version = 1;
  mode = "local_first_subscription_only";
  per_run = amount 20000 4000;
  per_day = amount 100000 20000;
  per_candidate = amount 12000 3000;
  retry_limit = 4;
  deadline_ms = 120000;
  max_response_bytes = 262144;
  backoff_seconds = 300 ∷ 900 ∷ [];
  cloud_api_enabled = false;
  cloud_spend_cap = 0;
  subscription_on_quota = "DEFERRED_QUOTA";
}

abbrev budget : Budget
budget = record {
  policy = policy;
  run_id = "run";
  candidate_id = "";
  purpose = "gate";
  disabled_providers = [];
}

abbrev router : Router
router = record {
  providers = record { provider_id = "ollama"; locality = "local"; available = true } ∷ [];
  provider_order = [];
  organizer = record { status = "READY"; provider_id = some "ollama" };
  cloud_spend_cap = 0;
  budget_ledger = some budget;
  settings = none;
}

abbrev limits : InferenceBudget
limits = record {
  wanted = amount 10 5;
  deadline_ms = 1000;
  candidate_id = "c";
  purpose = "gate";
  run_id = "run";
}

abbrev good_reply : Reply
good_reply = record {
  provider_id = "ollama";
  status = "success";
  error_code = none;
  used = amount 8 3;
  usage_known = true;
  cost_known = true;
  admission_refused = true;
}

abbrev request : Request
request = record {
  stage = "gate";
  limits = limits;
  attempt_id = "a1";
  fresh_id = "f1";
  day = "2025-01-01";
  elapsed_ms = 5;
  reserve_fails = false;
  settle_fails = false;
  outcome = replied good_reply;
  others = [];
}

same_text : String → String
same_text s = s

abbrev runs : List (Router × Request)
runs = (router, request) ∷ (router, request) ∷ []

-- The second call with the attempt is refused.
called_once : calls_all same_text runs (reads no_ledger) ≡ "a1" ∷ []
unfolding calls_all generate selected by_id route called admitted_call events_file reserve consume
    checked safe_id consume_checked consume_locked decided refusal total attempts lookup insert
    charged same_text settle settle_found settle_row adjust_section actual written tokens_after
called_once = refl

calls-once_example : times "a1" (calls_all same_text runs (reads no_ledger)) ≤ 1
calls-once_example = calls-once same_text "a1" runs (reads no_ledger)

abbrev large : Request
large = record request { limits = record limits { wanted = amount 30000 5 } }

abbrev refused_out : Generated
refused_out = record {
  reply = plain "ollama" "deferred" "TOKEN_CAP_EXCEEDED" true;
  file = reads no_ledger;
  calls = [];
}

refused_call : generate same_text router large (reads no_ledger) ≡ ok refused_out
unfolding generate selected by_id route called admitted_call reserve consume checked safe_id
    consume_checked consume_locked decided refusal total attempts lookup same_text tokens_after
refused_call = refl

refusal-proves_example : (refused_out.calls ≡ []) × (refused_out.file ≡ reads no_ledger)
refusal-proves_example =
    refusal-proves same_text router large (reads no_ledger) refused_out refused_call refl

quota :
    (classify_provider_error same_text (some 429) "" (some 600) 0 0).next_eligible
    ≡ some (seconds 600)
unfolding classify_provider_error error_kind mentions next_eligible_at delay_seconds backoff_seconds
    same_text
quota = refl

classify-waits_example :
    (is_deferred (classify_provider_error same_text (some 429) "" (some 600) 0 0).status ≡ true)
    × (0 + seconds 300 ≤ seconds 600)
    × (0 + seconds (asked (some 600)) ≤ seconds 600)
classify-waits_example = classify-waits same_text (some 429) "" (some 600) 0 0 (seconds 600) quota
