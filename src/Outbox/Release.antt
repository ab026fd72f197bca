-- ===== src/Outbox/Release.antt =====
-- `_release_delivered` of src/ei/team_outbox.py.
use portable_external_intell.Prelude.{
  Bool, List, Option, Result, String, [], err, false, if◌then◌else◌, none, not, ok, some, str_eq,
  true, ◌∷◌,
}
use portable_external_intell.Outbox.State.{
  Digests, Effect, Event, Payload, Receipt, Surroundings, World, already_recorded, binding_error,
  deletes, identity_matches, read_spool, same_hash, saves,
}

abbrev pub released : Receipt → Receipt
released r = record r { spool_ref = none }

module _ (d : Digests) (s : Surroundings) where
  -- Whether the spool is there, with the identities of the receipt; nothing where it may not be released.
  abbrev pub spool_present : Receipt → Result String Payload → Option Bool
  spool_present r (ok p) = if identity_matches d r p then some true else none
  spool_present r (err code) = if str_eq code "SPOOL_NOT_FOUND" then some false else none

  -- The end of `_release_delivered`, with what `_already_recorded` gives.
  abbrev pub release_proven :
      Receipt → String → Bool → Result String (Option Event) → List Effect × Bool
  release_proven r id present (err code) = ([], false)
  release_proven r id present (ok none) = ([], false)
  release_proven r id present (ok (some e)) =
      if not (same_hash r.final_event_hash (d.event_integrity e))
      then ([], false)
      else if not present
      then (saves (released r) ∷ [], true)
      else if s.undeletable id
      then ([], false)
      else (deletes id ∷ saves (released r) ∷ [], true)

  -- `_try_release_delivered`
  unfoldable pub try_release_delivered : Receipt → World → List Effect × Bool
  try_release_delivered r w = elim r.spool_ref [
    | none ↦ ([], true)
    | some id ↦
        if binding_error d r w then ([], false) else elim (spool_present r (read_spool s id w)) [
          | none ↦ ([], false)
          | some present ↦ release_proven r id present (already_recorded d r.idempotency_key w)
        ]
  ]
