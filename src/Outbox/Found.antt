-- ===== src/Outbox/Found.antt =====
-- The event that `_already_recorded` of src/ei/team_outbox.py finds is filed.
use portable_external_intell.Prelude.{
  >>=-eq-ok, Bool-cases, List, Option, Result, String, [], ap, err, inl, inr, is_some, none, not,
  ok, refl, some, str_eq, ◌&&◌, ◌∙◌, ◌∷◌, ◌≡◌, ◌⊎◌,
}
use portable_external_intell.Outbox.State.{
  Digests, Event, Filed, World, already_recorded, found_event, same_hash,
}
use portable_external_intell.Outbox.Kept.{IsFiled}

abbrev found_ok : Option Event → Result String (Option Event)
found_ok o = ok o

same_found : (a b : Option Event) → found_ok a ≡ ok b → a ≡ b
same_found a b h = cc

no_err : (code : String) (a : Option Event) → err code ≡ found_ok a → ⊥
no_err code a h = cc

found_here :
    (f : Filed) (fs : List Filed) (e : Event)
    → (some f.event ≡ some e) ⊎ ((g : Filed) × IsFiled g fs × (g.event ≡ e))
    → (g : Filed) × IsFiled g (f ∷ fs) × (g.event ≡ e)
found_here f fs e (inl same) = (f, inl refl, cc)
found_here f fs e (inr (g, filed, is_e)) = (g, inr filed, is_e)

module _ (d : Digests) where
  found_event-IsFiled :
      (key : String) (fs : List Filed) (so_far : Option Event) (e : Event)
      → found_event d key fs so_far ≡ ok (some e)
      → (so_far ≡ some e) ⊎ ((g : Filed) × IsFiled g fs × (g.event ≡ e))
  unfolding found_event
  found_event-IsFiled key [] so_far e h = inl (same_found so_far (some e) h)
  found_event-IsFiled key (f ∷ fs) none e h =
      elim (Bool-cases (same_hash f.event.idempotency_key key)) [
        | inl same ↦
            inr (found_here f fs e (found_event-IsFiled key fs (some f.event) e (rw same at h)))
        | inr other ↦ elim (found_event-IsFiled key fs none e (rw other at h)) [
          | inl found ↦ inl found
          | inr (g, filed, is_e) ↦ inr (g, inr filed, is_e)
        ]
      ]
  found_event-IsFiled key (f ∷ fs) (some x) e h =
      elim (Bool-cases (same_hash f.event.idempotency_key key)) [
        | inl same ↦ elim (Bool-cases (str_eq (d.event_integrity x) (d.event_integrity f.event))) [
          | inl one ↦ inr (
              found_here f fs e (found_event-IsFiled key fs (some f.event) e (rw (same, one) at h)))
          | inr two ↦ elim (no_err _ _ (rw (same, two) at h)) [ ]
        ]
        | inr other ↦ elim (found_event-IsFiled key fs (some x) e (rw other at h)) [
          | inl found ↦ inl found
          | inr (g, filed, is_e) ↦ inr (g, inr filed, is_e)
        ]
      ]

  pub already_recorded-IsFiled :
      (key : String) (w : World) (e : Event)
      → already_recorded d key w ≡ ok (some e)
      → (g : Filed) × IsFiled g w.team.events × (g.event ≡ e)
  unfolding already_recorded
  already_recorded-IsFiled key w e h =
      let (found, first, rest) = >>=-eq-ok (found_event d key w.team.events none) _ h in
      let is_e : found ≡ some e = elim (Bool-cases (not (is_some found) && w.team.issues)) [
        | inl bad ↦ elim (no_err _ _ (rw bad at rest)) [ ]
        | inr good ↦ same_found found (some e) (rw good at rest)
      ] in
      elim (found_event-IsFiled key w.team.events none e (first ∙ ap ok is_e)) [
        | inl never ↦ cc
        | inr found_there ↦ found_there
      ]
