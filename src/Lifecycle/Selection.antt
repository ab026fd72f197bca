-- ===== src/Lifecycle/Selection.antt =====
-- The bounds of `select_always_on` of src/ei/lifecycle.py, and what it takes.

use portable_external_intell.Prelude.{
  All, Bool, List, [], arith, if_elim, if_split, not, ok, subst, true, ℕ, ◌&&◌, ◌+◌, ◌∷◌, ◌≡◌, ◌≤◌,
}
use portable_external_intell.Lifecycle.AlwaysOn.{
  Pattern, cost, filtered, fits, place, ranked, ranks_before, select_always_on, selectable,
  selected, total_chars,
}

module _ (utility_score : Pattern → ℕ) where
  selected-bound :
      (target hard total : ℕ) (ps : List Pattern)
      → total ≤ hard
      → total + total_chars (selected utility_score target hard total ps) ≤ hard
  unfolding selected
  selected-bound target hard total [] h = omega arith
  selected-bound target hard total (p ∷ ps) h =
      if_split (λ xs. total + total_chars xs ≤ hard) (fits utility_score target hard total p)
        (λ e.
          let more = selected-bound target hard (total + cost p) ps (ground arith) in
          omega (arith, more))
        (λ e. selected-bound target hard total ps h)

  place-All :
      (P : Pattern → Type 0) (p : Pattern) (ps : List Pattern)
      → P p
      → All P ps
      → All P (place utility_score p ps)
  unfolding place
  place-All P p [] h all = (h, tt)
  place-All P p (q ∷ qs) h (k, rest) =
      if_elim (All P) (ranks_before utility_score p q) (h, (k, rest)) (k, place-All P p qs h rest)

  ranked-All :
      (P : Pattern → Type 0) (ps : List Pattern) → All P ps → All P (ranked utility_score ps)
  unfolding ranked
  ranked-All P [] all = tt
  ranked-All P (p ∷ ps) (h, rest) = place-All P p (ranked utility_score ps) h (ranked-All P ps rest)

  filtered-All :
      (test : Pattern → Bool) (ps : List Pattern) → All (λ p. test p ≡ true) (filtered test ps)
  filtered-All test [] = tt
  filtered-All test (p ∷ ps) =
      if_split (All (λ p. test p ≡ true)) (test p) (λ e. (e, filtered-All test ps))
        (λ e. filtered-All test ps)

  selected-All :
      (target hard total : ℕ) (ps : List Pattern)
      → All (λ p. selectable p ≡ true) ps
      → All (λ p. selectable p ≡ true) (selected utility_score target hard total ps)
  unfolding selected
  selected-All target hard total [] all = tt
  selected-All target hard total (p ∷ ps) (h, rest) =
      if_elim (All (λ p. selectable p ≡ true)) (fits utility_score target hard total p)
        (h, selected-All target hard (total + cost p) ps rest)
        (selected-All target hard total ps rest)

  -- A selection that succeeds stays within the hard cap of characters, and every pattern in it is
  -- active, of a class that may be shared, and without a contradiction.
  pub select-bound :
      (patterns : List Pattern) (target hard : ℕ) (chosen : List Pattern)
      → select_always_on utility_score patterns target hard ≡ ok chosen
      → (total_chars chosen ≤ hard) × All (λ p. selectable p ≡ true) chosen
  unfolding select_always_on
  select-bound patterns target hard chosen h =
      let candidates = ranked utility_score (filtered selectable patterns) in
      let same_list : selected utility_score target hard 0 candidates ≡ chosen = ground arith in
      let bound = selected-bound target hard 0 candidates (omega arith) in
      let all = selected-All target hard 0 candidates (
        ranked-All (λ p. selectable p ≡ true) (filtered selectable patterns)
          (filtered-All selectable patterns)) in
      subst (λ xs. (total_chars xs ≤ hard) × All (λ p. selectable p ≡ true) xs) same_list
        (omega (arith, bound), all)

  abbrev free : Pattern → Bool
  free p = not p.pinned && not p.legal_hold

  -- Where nothing is pinned and nothing under a legal hold, the selection stays within the target.
  selected-target :
      (target hard total : ℕ) (ps : List Pattern)
      → total ≤ target
      → All (λ p. free p ≡ true) ps
      → total + total_chars (selected utility_score target hard total ps) ≤ target
  unfolding selected
  selected-target target hard total [] h all = omega arith
  selected-target target hard total (p ∷ ps) h (k, rest) =
      if_split (λ xs. total + total_chars xs ≤ target) (fits utility_score target hard total p)
        (λ e.
          let more = selected-target target hard (total + cost p) ps (ground arith) rest in
          omega (arith, more))
        (λ e. selected-target target hard total ps h rest)

  filtered-keeps :
      (P : Pattern → Type 0) (test : Pattern → Bool) (ps : List Pattern)
      → All P ps
      → All P (filtered test ps)
  filtered-keeps P test [] all = tt
  filtered-keeps P test (p ∷ ps) (h, rest) =
      if_elim (All P) (test p) (h, filtered-keeps P test ps rest) (filtered-keeps P test ps rest)

  -- Where no pattern is pinned or under a legal hold, a selection stays within the target.
  pub select-target :
      (patterns : List Pattern) (target hard : ℕ) (chosen : List Pattern)
      → All (λ p. (not p.pinned && not p.legal_hold) ≡ true) patterns
      → select_always_on utility_score patterns target hard ≡ ok chosen
      → total_chars chosen ≤ target
  unfolding select_always_on
  select-target patterns target hard chosen all h =
      let candidates = ranked utility_score (filtered selectable patterns) in
      let same_list : selected utility_score target hard 0 candidates ≡ chosen = ground arith in
      let bound = selected-target target hard 0 candidates (omega arith) (
        ranked-All (λ p. free p ≡ true) (filtered selectable patterns)
          (filtered-keeps (λ p. free p ≡ true) selectable patterns all)) in
      subst (λ xs. total_chars xs ≤ target) same_list (omega (arith, bound))
