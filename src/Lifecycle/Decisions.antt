-- ===== src/Lifecycle/Decisions.antt =====
-- The events of `evaluate_lifecycle` of src/ei/lifecycle.py, and what becomes of them.
use portable_external_intell.Prelude.{
  All, Bool-cases, List, Option, String, [], arith, false, if_split, inl, inr, is_nil, length, refl,
  str_eq, true, ℕ, ◌&&◌, ◌==◌, ◌∷◌, ◌≡◌, ◌≢◌, ◌≤◌,
}
use portable_external_intell.Lifecycle.State.{Cluster, Policy, promotion_eligibility}
use portable_external_intell.Lifecycle.Evaluate.{
  Event, Payload, apply_lifecycle_transition, evaluate_at, evaluate_lifecycle, event, forgotten,
  inactive_long_enough, many_contradictions, now_of, promotion, replaced, stale, timestamp_of,
  tombstones, unprotected,
}
use portable_external_intell.Lifecycle.Rules.{Promotable, eligible-iff-Promotable}

module _ (parse : String → Option ℕ) (digest : String → String) (sorted : List String → List String)
    (event_digest : String → String → Payload → String) where
  -- Unused for so many days at this instant.
  abbrev pub Idle : Cluster → ℕ → ℕ → Type 0
  Idle s now n = inactive_long_enough parse digest sorted event_digest s now n ≡ true

  -- Nothing holds the pattern: not pinned, no legal hold, no contradiction, and never shown.
  pub record Unheld (s : Cluster) : Type 0 where
    pub pinned : s.pinned ≡ false
    pub legal_hold : s.legal_hold ≡ false
    pub contradictions : s.contradiction_provenances ≡ []
    pub exposure : s.exposure_count ≡ 0

  pub data Justified (s : Cluster) (p : Policy) (now : ℕ) : Event → Type 0 where
    contradicted :
        (e : Event)
        → e.event_type ≡ "pattern.deprecated"
        → str_eq s.status "active" ≡ true
        → p.contradiction_count_for_deprecation ≤ length s.contradiction_provenances
        → Justified s p now e
    unused :
        (e : Event)
        → e.event_type ≡ "pattern.deprecated"
        → str_eq s.status "active" ≡ true
        → s.benefit_count ≡ 0
        → Idle s now p.unused_days_for_deprecation
        → Justified s p now e
    ready : (e : Event) → e.event_type ≡ "pattern.promoted" → Promotable s p → Justified s p now e
    superseded_long :
        (e : Event)
        → e.event_type ≡ "pattern.tombstoned"
        → Unheld s
        → str_eq s.status "superseded" ≡ true
        → s.replacement_active ≡ true
        → Idle s now p.superseded_unused_days_for_tombstone
        → Justified s p now e
    deprecated_long :
        (e : Event)
        → e.event_type ≡ "pattern.tombstoned"
        → Unheld s
        → str_eq s.status "deprecated" ≡ true
        → Idle s now p.deprecated_unused_days_for_tombstone
        → Justified s p now e

  is_nil-empty : {A : Type 0} (xs : List A) → is_nil xs ≡ true → xs ≡ []
  is_nil-empty [] h = refl
  is_nil-empty (x ∷ xs) h = cc

  unheld :
      (s : Cluster)
      → unprotected parse digest sorted event_digest s ≡ true
      → (s.exposure_count == 0) ≡ true
      → Unheld s
  unheld s h k = record {
    pinned = ground arith;
    legal_hold = ground arith;
    contradictions = is_nil-empty s.contradiction_provenances (ground arith);
    exposure = ground arith;
  }

  tombstoned-Justified :
      (s : Cluster) (p : Policy) (timestamp : String) (now : ℕ)
      → All (Justified s p now) (tombstones parse digest sorted event_digest s p timestamp now)
  unfolding tombstones event
  tombstoned-Justified s p timestamp now =
      let free = unprotected parse digest sorted event_digest s in
      if_split (All (Justified s p now)) (free && replaced parse digest sorted event_digest s p now)
        (λ h. (
          superseded_long _ refl (unheld s (ground arith) (ground arith)) (ground arith)
              (ground arith) (ground arith),
          tt,
        ))
        (λ h.
          if_split (All (Justified s p now))
            (free && forgotten parse digest sorted event_digest s p now)
            (λ k. (
              deprecated_long _ refl (unheld s (ground arith) (ground arith)) (ground arith)
                  (ground arith),
              tt,
            ))
            (λ k. tt))

  evaluated-Justified :
      (s : Cluster) (p : Policy) (timestamp : String) (now : ℕ)
      → All (Justified s p now) (evaluate_at parse digest sorted event_digest s p timestamp now)
  unfolding evaluate_at event promotion
  evaluated-Justified s p timestamp now =
      if_split (All (Justified s p now)) (many_contradictions parse digest sorted event_digest s p)
        (λ h. (contradicted _ refl (ground arith) (ground arith), tt))
        (λ h.
          if_split (All (Justified s p now)) (stale parse digest sorted event_digest s p now)
            (λ k. (unused _ refl (ground arith) (ground arith) (ground arith), tt))
            (λ k.
              if_split (All (Justified s p now)) ((promotion_eligibility s p).valid)
                (λ v. (ready _ refl ((eligible-iff-Promotable s p).0 v), tt))
                (λ v. tombstoned-Justified s p timestamp now)))

  -- Every event that an evaluation gives has its reason in the state, the policy and the time: an
  -- active pattern is deprecated for the policy's number of contradictions, or for no benefit and
  -- long disuse; a promotion meets every condition of the policy; and a pattern is removed only
  -- when it is superseded by an active replacement or deprecated, unused for long and shown
  -- nowhere, and no pin, legal hold or contradiction keeps it.
  pub evaluate-Justified :
      (s : Cluster) (p : Policy) (now_utc : Option String)
      → All
          (Justified s p (now_of parse digest sorted event_digest now_utc s))
          (evaluate_lifecycle parse digest sorted event_digest s p now_utc)
  unfolding evaluate_lifecycle
  evaluate-Justified s p now_utc =
      evaluated-Justified s p (timestamp_of parse digest sorted event_digest now_utc s)
        (now_of parse digest sorted event_digest now_utc s)

  abbrev Kept : Cluster → Policy → Event → Type 0
  Kept s p e = apply_lifecycle_transition parse digest sorted event_digest s e p ≡ e ∷ []

  evaluated-Kept :
      (s : Cluster) (p : Policy) (timestamp : String) (now : ℕ)
      → All (Kept s p) (evaluate_at parse digest sorted event_digest s p timestamp now)
  unfolding evaluate_at tombstones event promotion apply_lifecycle_transition
  evaluated-Kept s p timestamp now =
      let free = unprotected parse digest sorted event_digest s in
      if_split (All (Kept s p)) (many_contradictions parse digest sorted event_digest s p)
        (λ h. (refl, tt))
        (λ h.
          if_split (All (Kept s p)) (stale parse digest sorted event_digest s p now)
            (λ k. (refl, tt))
            (λ k.
              if_split (All (Kept s p)) ((promotion_eligibility s p).valid) (λ v. (rw v refl, tt))
                (λ v.
                  if_split (All (Kept s p))
                    (free && replaced parse digest sorted event_digest s p now) (λ x. (refl, tt))
                    (λ x.
                      if_split (All (Kept s p))
                        (free && forgotten parse digest sorted event_digest s p now)
                        (λ y. (refl, tt)) (λ y. tt)))))

  -- What an evaluation decides on a state passes the transition on that state, as it is.
  pub evaluate-Kept :
      (s : Cluster) (p : Policy) (now_utc : Option String)
      → All
          (λ e. apply_lifecycle_transition parse digest sorted event_digest s e p ≡ e ∷ [])
          (evaluate_lifecycle parse digest sorted event_digest s p now_utc)
  unfolding evaluate_lifecycle
  evaluate-Kept s p now_utc =
      evaluated-Kept s p (timestamp_of parse digest sorted event_digest now_utc s)
        (now_of parse digest sorted event_digest now_utc s)

  -- An event of a promotion that the transition lets pass is for a cluster that meets every
  -- condition of the policy.
  pub no_false_promotion :
      (s : Cluster) (p : Policy) (e : Event)
      → str_eq e.event_type "pattern.promoted" ≡ true
      → apply_lifecycle_transition parse digest sorted event_digest s e p ≢ []
      → Promotable s p
  unfolding apply_lifecycle_transition
  no_false_promotion s p e t h = elim (Bool-cases ((promotion_eligibility s p).valid)) [
    | inl v ↦ (eligible-iff-Promotable s p).0 v
    | inr v ↦ absurd (h (rw (t, v) refl))
  ]
