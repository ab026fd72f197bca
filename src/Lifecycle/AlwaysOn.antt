-- ===== src/Lifecycle/AlwaysOn.antt =====
-- `select_always_on` of src/ei/lifecycle.py. The utility of a pattern, a rounded number from -1 to 1, is
-- a parameter: the number of millionths above -1.
use Prim.Native.String.{count, compare}
use Prim.Native.Nat.{Ordering}
use portable_external_intell.Prelude.{
  Bool, List, Option, Result, String, [], err, false, if◌then◌else◌, leb, ltb, ok, str_eq, true, ℕ,
  ◌&&◌, ◌+◌, ◌==◌, ◌||◌, ◌∷◌,
}
use portable_external_intell.Lifecycle.State.{promotable_class}

-- `PatternState`, but for the fields on hosts and versions.
pub record Pattern : Type 0 where
  pub pattern_id : String
  pub rule : String
  pub evidence_ids : List String
  pub benefit_refs : List String
  pub status : String
  pub classification : String
  pub utility : ℕ
  pub applicability : List String
  pub updated_at : Option String
  pub contradiction_count : ℕ
  pub pinned : Bool
  pub legal_hold : Bool

pub data SelectionError : Type 0 where
  always_on_budget_invalid : SelectionError

abbrev pub selectable : Pattern → Bool
selectable p =
    str_eq p.status "active" && promotable_class p.classification && p.contradiction_count == 0

abbrev pub filtered : (Pattern → Bool) → List Pattern → List Pattern
filtered test [] = []
filtered test (p ∷ ps) = let rest = filtered test ps in if test p then p ∷ rest else rest

abbrev pub cost : Pattern → ℕ
cost p = count p.rule

-- The characters of a selection.
abbrev pub total_chars : List Pattern → ℕ
total_chars [] = 0
total_chars (p ∷ ps) = cost p + total_chars ps

module _ (utility_score : Pattern → ℕ) where
  abbrev pin_rank : Pattern → ℕ
  pin_rank p = if p.pinned then 1 else 0

  abbrev not_after : String → String → Bool
  not_after a b = elim (compare a b) [ Ordering.gt ↦ false | _ ↦ true ]

  -- The order of the sort key `(-utility, -pinned, pattern_id)`.
  abbrev pub ranks_before : Pattern → Pattern → Bool
  ranks_before a b =
      ltb (utility_score b) (utility_score a)
      || (utility_score a == utility_score b
          && (ltb (pin_rank b) (pin_rank a)
              || (pin_rank a == pin_rank b && not_after a.pattern_id b.pattern_id)))

  unfoldable pub place : Pattern → List Pattern → List Pattern
  place p [] = p ∷ []
  place p (q ∷ qs) = if ranks_before p q then p ∷ q ∷ qs else q ∷ place p qs

  -- `sorted`, which keeps the order of equal keys.
  unfoldable pub ranked : List Pattern → List Pattern
  ranked [] = []
  ranked (p ∷ ps) = place p (ranked ps)

  abbrev pub fits : ℕ → ℕ → ℕ → Pattern → Bool
  fits target hard total p =
      leb (cost p) hard
      && leb (total + cost p) hard
      && (leb (total + cost p) target || p.pinned || p.legal_hold)

  -- The loop over the ranked candidates, with the characters that are taken.
  unfoldable pub selected : ℕ → ℕ → ℕ → List Pattern → List Pattern
  selected target hard total [] = []
  selected target hard total (p ∷ ps) =
      let with_p = selected target hard (total + cost p) ps in
      let without = selected target hard total ps in
      if fits target hard total p then record p { utility = utility_score p } ∷ with_p else without

  unfoldable pub select_always_on : List Pattern → ℕ → ℕ → Result SelectionError (List Pattern)
  select_always_on patterns target hard =
      if target == 0 || hard == 0 || ltb hard target
      then err always_on_budget_invalid
      else ok (selected target hard 0 (ranked (filtered selectable patterns)))
