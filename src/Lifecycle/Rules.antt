-- ===== src/Lifecycle/Rules.antt =====
-- What src/ei/lifecycle.py decides: the conditions of each event, and that a decision is carried out.
use Prim.Native.String.{count}
use portable_external_intell.Prelude.{
  All, Bool, List, String, [], any, arith, false, is_nil, length, refl, str_eq, true, ◌||◌, ◌↔◌,
  ◌∷◌, ◌≡◌, ◌≤◌,
}
use portable_external_intell.Lifecycle.State.{
  Cluster, Policy, has_text, no_failure_mode, no_precondition, promotable_class,
  promotion_eligibility, promotion_reasons, promotion_tests, reasons_of,
}

-- A cluster that may be promoted, by conditions that must hold at once.
pub record Promotable (s : Cluster) (p : Policy) : Type 0 where
  pub status : (str_eq s.status "raw" || str_eq s.status "candidate") ≡ true
  pub provenances : p.independent_provenance_count ≤ length s.provenances
  pub scopes : p.distinct_scope_count ≤ length s.scopes
  pub benefits : p.benefit_evidence_count ≤ s.benefit_count
  pub contradictions : length s.contradiction_provenances ≤ p.max_unresolved_contradictions
  pub classification : promotable_class s.classification ≡ true
  pub long_rule : p.min_rule_chars ≤ count s.rule
  pub short_rule : count s.rule ≤ p.max_rule_chars
  pub precondition : no_precondition s ≡ false
  pub failure_mode : no_failure_mode s ≡ false
  pub applicability : any has_text s.applicability ≡ true

no_reason-All :
    (tests : List (Bool × String)) → is_nil (reasons_of tests) ≡ true → All (λ t. t.0 ≡ false) tests
unfolding reasons_of
no_reason-All [] h = tt
no_reason-All ((true, reason) ∷ tests) h = cc
no_reason-All ((false, reason) ∷ tests) h = (refl, no_reason-All tests h)

All-no_reason :
    (tests : List (Bool × String)) → All (λ t. t.0 ≡ false) tests → is_nil (reasons_of tests) ≡ true
unfolding reasons_of
All-no_reason [] all = refl
All-no_reason ((true, reason) ∷ tests) (e, rest) = cc
All-no_reason ((false, reason) ∷ tests) (e, rest) = All-no_reason tests rest

eligible-Promotable :
    (s : Cluster) (p : Policy) → (promotion_eligibility s p).valid ≡ true → Promotable s p
unfolding promotion_eligibility promotion_reasons
eligible-Promotable s p h =
    let (t₁, (t₂, (t₃, (t₄, (t₅, (t₆, (t₇, (t₈, (t₉, (t₁₀, rest)))))))))) =
      no_reason-All (promotion_tests s p) h in
    record {
      status = ground arith;
      provenances = ground arith;
      scopes = ground arith;
      benefits = ground arith;
      contradictions = ground arith;
      classification = ground arith;
      long_rule = ground arith;
      short_rule = ground arith;
      precondition = t₈;
      failure_mode = t₉;
      applicability = ground arith;
    }

Promotable-eligible :
    (s : Cluster) (p : Policy) → Promotable s p → (promotion_eligibility s p).valid ≡ true
unfolding promotion_eligibility promotion_reasons
Promotable-eligible s p k =
    let a = k.status in
    let b = k.provenances in
    let c = k.scopes in
    let d = k.benefits in
    let e = k.contradictions in
    let f = k.classification in
    let g = k.long_rule in
    let h = k.short_rule in
    let i = k.applicability in
    All-no_reason (promotion_tests s p) (
      ground arith,
      (
        ground arith,
        (
          ground arith,
          (
            ground arith,
            (
              ground arith,
              (
                ground arith,
                (ground arith, (k.precondition, (k.failure_mode, (ground arith, tt)))),
              ),
            ),
          ),
        ),
      ),
    )

-- A cluster may be promoted just where it meets every condition of the policy.
pub eligible-iff-Promotable :
    (s : Cluster) (p : Policy) → ((promotion_eligibility s p).valid ≡ true) ↔ Promotable s p
eligible-iff-Promotable s p = (eligible-Promotable s p, Promotable-eligible s p)
