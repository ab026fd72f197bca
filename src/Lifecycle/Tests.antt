-- ===== src/Lifecycle/Tests.antt =====
-- Evaluations and selections of src/ei/lifecycle.py.
use portable_external_intell.Prelude.{
  All, List, Option, String, [], ap, false, is_nil, none, not, ok, refl, str_eq, true, ℕ, ◌↔◌, ◌∷◌,
  ◌≡◌, ◌≢◌, ◌≤◌,
}
use portable_external_intell.Lifecycle.State.{
  Cluster, defaults, has_text, promotion_eligibility, promotion_reasons, reasons_of,
}
use portable_external_intell.Lifecycle.Evaluate.{
  Event, Payload, apply_lifecycle_transition, evaluate_lifecycle, event, now_of, promotion,
}
use portable_external_intell.Lifecycle.AlwaysOn.{
  Pattern, place, ranked, select_always_on, selectable, selected, total_chars,
}
use portable_external_intell.Lifecycle.Rules.{Promotable, eligible-iff-Promotable}
use portable_external_intell.Lifecycle.Decisions.{
  Justified, evaluate-Justified, evaluate-Kept, no_false_promotion,
}
use portable_external_intell.Lifecycle.Selection.{select-bound, select-target}

abbrev rule : String
rule = "Check that the directory of the queue is there before the first item is written to it."

abbrev cluster : Cluster
cluster = record {
  cluster_id = "c1";
  pattern_id = none;
  status = "candidate";
  rule = rule;
  provenances = "a" ∷ "b" ∷ [];
  scopes = "x" ∷ "y" ∷ [];
  benefit_count = 1;
  contradiction_provenances = [];
  classification = "private-reusable";
  last_used_at = none;
  deprecated_at = none;
  superseded_by = none;
  replacement_active = false;
  pinned = false;
  legal_hold = false;
  exposure_count = 0;
  precondition = none;
  failure_mode = none;
  evidence_refs = [];
  applicability = "queue" ∷ [];
  revision = 0;
}

no_time : String → Option ℕ
no_time t = none

same_text : String → String
same_text t = t

same_list : List String → List String
same_list ts = ts

no_digest : String → String → Payload → String
no_digest a b c = a

may_promote : (promotion_eligibility cluster defaults).valid ≡ true
unfolding promotion_eligibility promotion_reasons reasons_of has_text
may_promote = refl

alone-kept :
    promotion_reasons (record cluster { scopes = [] }) defaults
    ≡ "INSUFFICIENT_DISTINCT_SCOPE" ∷ "PRECONDITION_MISSING" ∷ []
unfolding promotion_reasons reasons_of has_text
alone-kept = refl

eligible-iff-Promotable_example :
    ((promotion_eligibility cluster defaults).valid ≡ true) ↔ Promotable cluster defaults
eligible-iff-Promotable_example = eligible-iff-Promotable cluster defaults

evaluate-Justified_example :
    All
      (Justified no_time same_text same_list no_digest cluster defaults
        (now_of no_time same_text same_list no_digest none cluster))
      (evaluate_lifecycle no_time same_text same_list no_digest cluster defaults none)
evaluate-Justified_example =
    evaluate-Justified no_time same_text same_list no_digest cluster defaults none

evaluate-Kept_example :
    All
      (λ e.
        apply_lifecycle_transition no_time same_text same_list no_digest cluster e defaults
        ≡ e ∷ [])
      (evaluate_lifecycle no_time same_text same_list no_digest cluster defaults none)
evaluate-Kept_example = evaluate-Kept no_time same_text same_list no_digest cluster defaults none

abbrev promoted : Event
promoted = promotion no_time same_text same_list no_digest cluster defaults "now"

is_promotion : str_eq promoted.event_type "pattern.promoted" ≡ true
unfolding promotion event
is_promotion = refl

passes :
    apply_lifecycle_transition no_time same_text same_list no_digest cluster promoted defaults ≢ []
unfolding apply_lifecycle_transition promotion event
passes h = let one : true ≡ false = ap (λ xs. not (is_nil xs)) (rw may_promote at h) in cc

no_false_promotion_example : Promotable cluster defaults
no_false_promotion_example =
    no_false_promotion no_time same_text same_list no_digest cluster defaults promoted is_promotion
      passes

abbrev pattern_of : String → Pattern
pattern_of text = record {
  pattern_id = text;
  rule = text;
  evidence_ids = [];
  benefit_refs = [];
  status = "active";
  classification = "public";
  utility = 0;
  applicability = [];
  updated_at = none;
  contradiction_count = 0;
  pinned = false;
  legal_hold = false;
}

even : Pattern → ℕ
even p = 0

abbrev chosen : List Pattern
chosen = pattern_of "four" ∷ []

one-chosen :
    select_always_on even (pattern_of "four" ∷ pattern_of "longer text" ∷ []) 10 12 ≡ ok chosen
unfolding select_always_on selected ranked place even
one-chosen = refl

select-bound_example : (total_chars chosen ≤ 12) × All (λ p. selectable p ≡ true) chosen
select-bound_example =
    select-bound even (pattern_of "four" ∷ pattern_of "longer text" ∷ []) 10 12 chosen one-chosen

select-target_example : total_chars chosen ≤ 10
select-target_example =
    select-target even (pattern_of "four" ∷ pattern_of "longer text" ∷ []) 10 12 chosen
      (refl, (refl, tt)) one-chosen
