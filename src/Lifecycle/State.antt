-- ===== src/Lifecycle/State.antt =====
-- The state of a cluster and the promotion policy of src/ei/models.py, and the check of
-- src/ei/lifecycle.py that a cluster may be promoted. A set is the list of its members.
use Prim.Native.Char.{code}
use Prim.Native.String.{count}
use portable_external_intell.Prelude.{
  Bool, List, Option, String, [], any, false, if◌then◌else◌, is_nil, is_some, leb, length, ltb,
  none, not, some, str_eq, ℕ, ◌&&◌, ◌==◌, ◌||◌, ◌∷◌,
}

pub record Cluster : Type 0 where
  pub cluster_id : String
  pub pattern_id : Option String
  pub status : String
  pub rule : String
  pub provenances : List String
  pub scopes : List String
  pub benefit_count : ℕ
  pub contradiction_provenances : List String
  pub classification : String
  pub last_used_at : Option String
  pub deprecated_at : Option String
  pub superseded_by : Option String
  pub replacement_active : Bool
  pub pinned : Bool
  pub legal_hold : Bool
  pub exposure_count : ℕ
  pub precondition : Option String
  pub failure_mode : Option String
  pub evidence_refs : List String
  pub applicability : List String
  pub revision : ℕ

pub record Policy : Type 0 where
  pub independent_provenance_count : ℕ
  pub distinct_scope_count : ℕ
  pub benefit_evidence_count : ℕ
  pub max_unresolved_contradictions : ℕ
  pub min_rule_chars : ℕ
  pub max_rule_chars : ℕ
  pub contradiction_count_for_deprecation : ℕ
  pub unused_days_for_deprecation : ℕ
  pub superseded_unused_days_for_tombstone : ℕ
  pub deprecated_unused_days_for_tombstone : ℕ
  pub policy_version : String

-- `PromotionPolicy.defaults`
abbrev pub defaults : Policy
defaults = record {
  independent_provenance_count = 2;
  distinct_scope_count = 2;
  benefit_evidence_count = 1;
  max_unresolved_contradictions = 0;
  min_rule_chars = 80;
  max_rule_chars = 1200;
  contradiction_count_for_deprecation = 3;
  unused_days_for_deprecation = 180;
  superseded_unused_days_for_tombstone = 90;
  deprecated_unused_days_for_tombstone = 365;
  policy_version = "promotion-v1";
}

-- The characters that `str.strip` removes.
is_space : ℕ → Bool
is_space c =
    (leb 9 c && leb c 13)
    || (leb 28 c && leb c 32)
    || c == 133
    || c == 160
    || c == 5760
    || (leb 8192 c && leb c 8202)
    || c == 8232
    || c == 8233
    || c == 8239
    || c == 8287
    || c == 12288

-- `bool(text.strip())`
unfoldable pub has_text : String → Bool
unfolding is_space
has_text String.[] = false
has_text (String.◌∷◌ c rest) = not (is_space (code c)) || has_text rest

abbrev pub promotable_class : String → Bool
promotable_class c = str_eq c "public" || str_eq c "private-reusable"

abbrev pub is_text : Option String → String → Bool
is_text none t = false
is_text (some s) t = str_eq s t

-- The missing precondition: said to be empty, or not said and there is no scope.
abbrev pub no_precondition : Cluster → Bool
no_precondition s = is_text s.precondition "" || (not (is_some s.precondition) && is_nil s.scopes)

abbrev pub no_failure_mode : Cluster → Bool
no_failure_mode s =
    is_text s.failure_mode "" || (not (is_some s.failure_mode) && ltb s.benefit_count 1)

abbrev pub rule_length_ok : Cluster → Policy → Bool
rule_length_ok s p = leb p.min_rule_chars (count s.rule) && leb (count s.rule) p.max_rule_chars

pub record ValidationResult : Type 0 where
  pub valid : Bool
  pub reason_codes : List String

-- The tests against a promotion, in order, with the reason that each adds.
abbrev pub promotion_tests : Cluster → Policy → List (Bool × String)
promotion_tests s p =
    (not (str_eq s.status "raw" || str_eq s.status "candidate"), "STATUS_NOT_PROMOTABLE")
    ∷ (
      ltb (length s.provenances) p.independent_provenance_count,
      "INSUFFICIENT_INDEPENDENT_PROVENANCE",
    )
    ∷ (ltb (length s.scopes) p.distinct_scope_count, "INSUFFICIENT_DISTINCT_SCOPE")
    ∷ (ltb s.benefit_count p.benefit_evidence_count, "INSUFFICIENT_BENEFIT_EVIDENCE")
    ∷ (
      ltb p.max_unresolved_contradictions (length s.contradiction_provenances),
      "UNRESOLVED_CONTRADICTION",
    )
    ∷ (not (promotable_class s.classification), "CLASSIFICATION_NOT_PROMOTABLE")
    ∷ (not (rule_length_ok s p), "RULE_LENGTH_INVALID")
    ∷ (no_precondition s, "PRECONDITION_MISSING")
    ∷ (no_failure_mode s, "FAILURE_MODE_MISSING")
    ∷ (not (any has_text s.applicability), "APPLICABILITY_MISSING")
    ∷ []

-- The reasons of the tests that are met; each stands at one test, so that none is there twice.
unfoldable pub reasons_of : List (Bool × String) → List String
reasons_of [] = []
reasons_of ((test, reason) ∷ tests) =
    let others = reasons_of tests in if test then reason ∷ others else others

unfoldable pub promotion_reasons : Cluster → Policy → List String
promotion_reasons s p = reasons_of (promotion_tests s p)

unfoldable pub promotion_eligibility : Cluster → Policy → ValidationResult
promotion_eligibility s p = record {
  valid = is_nil (promotion_reasons s p);
  reason_codes = promotion_reasons s p;
}
