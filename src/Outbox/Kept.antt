-- ===== src/Outbox/Kept.antt =====
-- What an effect of the outbox keeps (src/ei/team_outbox.py).
use portable_external_intell.Prelude.{
  Bool-cases, List, String, [], all, arith, eq_iff, false, if◌then◌else◌, inl, inr, is_some, lookup,
  lookup-insert, none, refl, some, str_eq, subst, sym, true, ◌++◌, ◌∙◌, ◌∷◌, ◌≡◌, ◌⊎◌,
}
use portable_external_intell.Outbox.State.{
  Digests, Effect, Filed, Payload, Receipt, World, apply, apply_all, deletes, files, is_delivered,
  remove, saves, spools,
}

-- The event is filed in the team store.
abbrev pub IsFiled : Filed → List Filed → Type 0
IsFiled f [] = ⊥
IsFiled f (g ∷ rest) = (g ≡ f) ⊎ IsFiled f rest

pub IsFiled-more : (f : Filed) (xs ys : List Filed) → IsFiled f xs → IsFiled f (xs ++ ys)
IsFiled-more f [] ys h = elim h [ ]
IsFiled-more f (x ∷ xs) ys (inl e) = inl e
IsFiled-more f (x ∷ xs) ys (inr h) = inr (IsFiled-more f xs ys h)

pub IsFiled-last : (f : Filed) (xs : List Filed) → IsFiled f (xs ++ f ∷ [])
IsFiled-last f [] = inl refl
IsFiled-last f (x ∷ xs) = inr (IsFiled-last f xs)

lookup-remove :
    {V : Type 0} (id asked : String) (m : List (String × V))
    → lookup asked (remove id m) ≡ (if str_eq id asked then none else lookup asked m)
unfolding lookup remove
lookup-remove id asked [] = ground arith
lookup-remove id asked ((here, v) ∷ rest) =
    let below = lookup-remove id asked rest in
    ground (arith, below, eq_iff here id, eq_iff here asked, eq_iff id asked)

module _ (d : Digests) where
  -- Delivered: an event with the digest of the receipt is filed.
  abbrev pub Proven : Receipt → World → Type 0
  Proven r w =
      (f : Filed) × IsFiled f w.team.events
      × (r.final_event_hash ≡ some (d.event_integrity f.event))

  -- The body is still in the spool.
  abbrev pub InSpool : Receipt → World → Type 0
  InSpool r w = (r.spool_ref ≡ some r.receipt_id) × (is_some (lookup r.receipt_id w.spool) ≡ true)

  abbrev pub Safe : Receipt → World → Type 0
  Safe r w =
      ((is_delivered r.status ≡ true) × Proven r w)
      ⊎ ((is_delivered r.status ≡ false) × InSpool r w)

  -- The receipt is by its own name, and so is its spool.
  abbrev pub Named : String → Receipt → Type 0
  Named id r = (r.receipt_id ≡ id) × ((r.spool_ref ≡ none) ⊎ (r.spool_ref ≡ some r.receipt_id))

  -- Every receipt on file is by its own name, and its event is not lost.
  abbrev pub AllSafe : World → Type 0
  AllSafe w = (id : String) (r : Receipt) → lookup id w.receipts ≡ some r → Named id r × Safe r w

  -- What an effect for the receipt of a name has to fulfil.
  abbrev pub Fits : String → World → Effect → Type 0
  Fits id w (spools j p) = Unit
  Fits id w (saves r) = Named id r × Safe r w
  Fits id w (files f) = Unit
  Fits id w (deletes j) =
      (r : Receipt) → lookup j w.receipts ≡ some r → (is_delivered r.status ≡ true) × Proven r w

  same_receipt : (q r : Receipt) → some q ≡ some r → q ≡ r
  same_receipt q r h = cc

  spools-Safe :
      (id : String) (p : Payload) (r : Receipt) (w : World)
      → Safe r w
      → Safe r (apply (spools id p) w)
  unfolding apply
  spools-Safe id p r w (inl h) = inl h
  spools-Safe id p r w (inr (u, (ref, there))) =
      inr (u, (ref, ground (arith, there, lookup-insert id r.receipt_id p w.spool)))

  files-Safe : (f : Filed) (r : Receipt) (w : World) → Safe r w → Safe r (apply (files f) w)
  unfolding apply
  files-Safe f r w (inl (done, (g, filed, e))) =
      inl (done, (g, IsFiled-more g w.team.events (f ∷ []) filed, e))
  files-Safe f r w (inr h) = inr h

  deletes-Safe :
      (id : String) (r : Receipt) (w : World)
      → (str_eq id r.receipt_id ≡ true → (is_delivered r.status ≡ true) × Proven r w)
      → Safe r w
      → Safe r (apply (deletes id) w)
  unfolding apply
  deletes-Safe id r w own (inl h) = inl h
  deletes-Safe id r w own (inr (u, (ref, there))) = elim (Bool-cases (str_eq id r.receipt_id)) [
    | inl same ↦ inl (own same)
    | inr other ↦ inr (u, (ref, rw (lookup-remove, other) there))
  ]

  pub apply-AllSafe :
      (id : String) (e : Effect) (w : World) → Fits id w e → AllSafe w → AllSafe (apply e w)
  unfolding apply
  apply-AllSafe id (spools j p) w fits all k r at =
      let (own, safe) = all k r at in (own, spools-Safe j p r w safe)
  apply-AllSafe id (files f) w fits all k r at =
      let (own, safe) = all k r at in (own, files-Safe f r w safe)
  apply-AllSafe id (deletes j) w fits all k r at =
      let (own, safe) = all k r at in
      (
        own,
        deletes-Safe j r w
            (λ same. fits r (
              subst (λ x. lookup x w.receipts ≡ some r)
                (sym ((eq_iff j r.receipt_id).0 same ∙ own.0)) at))
            safe,
      )
  apply-AllSafe id (saves q) w (own, safe) all k r at = elim (Bool-cases (str_eq q.receipt_id k)) [
    | inl same ↦
        let e : q ≡ r = same_receipt q r (rw (lookup-insert, same) at at) in
        subst (λ x. Named k x × Safe x (apply (saves q) w)) e
          (((eq_iff q.receipt_id k).0 same, own.1), safe)
    | inr other ↦ all k r (rw (lookup-insert, other) at at)
  ]

  -- Every effect of a sequence fits, behind those before it.
  abbrev pub AllFit : String → World → List Effect → Type 0
  AllFit id w [] = Unit
  AllFit id w (e ∷ es) = Fits id w e × AllFit id (apply e w) es

  pub AllFit-append :
      (id : String) (xs ys : List Effect) (w : World)
      → AllFit id w xs
      → AllFit id (apply_all xs w) ys
      → AllFit id w (xs ++ ys)
  unfolding apply_all
  AllFit-append id [] ys w h k = k
  AllFit-append id (x ∷ xs) ys w (h, h') k = (h, AllFit-append id xs ys (apply x w) h' k)

  -- The receipt of another name is left.
  pub AllFit-elsewhere :
      (id j : String) (es : List Effect) (w : World)
      → AllFit id w es
      → str_eq id j ≡ false
      → lookup j (apply_all es w).receipts ≡ lookup j w.receipts
  unfolding apply_all apply
  AllFit-elsewhere id j [] w h other = refl
  AllFit-elsewhere id j (spools k p ∷ es) w (h, h') other =
      AllFit-elsewhere id j es (apply (spools k p) w) h' other
  AllFit-elsewhere id j (files f ∷ es) w (h, h') other =
      AllFit-elsewhere id j es (apply (files f) w) h' other
  AllFit-elsewhere id j (deletes k ∷ es) w (h, h') other =
      AllFit-elsewhere id j es (apply (deletes k) w) h' other
  AllFit-elsewhere id j (saves q ∷ es) w ((own, safe), h') other =
      AllFit-elsewhere id j es (apply (saves q) w) h' other ∙ rw (lookup-insert, own.0, other) refl

  -- Each effect of a sequence keeps every receipt safe.
  abbrev pub Keeps : World → List Effect → Type 0
  Keeps w [] = Unit
  Keeps w (e ∷ es) = (AllSafe w → AllSafe (apply e w)) × Keeps (apply e w) es

  pub AllFit-Keeps : (id : String) (es : List Effect) (w : World) → AllFit id w es → Keeps w es
  AllFit-Keeps id [] w h = tt
  AllFit-Keeps id (e ∷ es) w (h, h') = (apply-AllSafe id e w h, AllFit-Keeps id es (apply e w) h')

  pub Keeps-append :
      (xs ys : List Effect) (w : World)
      → Keeps w xs
      → Keeps (apply_all xs w) ys
      → Keeps w (xs ++ ys)
  unfolding apply_all
  Keeps-append [] ys w h k = k
  Keeps-append (x ∷ xs) ys w (h, h') k = (h, Keeps-append xs ys (apply x w) h' k)

  pub Keeps-AllSafe :
      (es : List Effect) (w : World) → Keeps w es → AllSafe w → AllSafe (apply_all es w)
  unfolding apply_all
  Keeps-AllSafe [] w h all = all
  Keeps-AllSafe (e ∷ es) w (h, h') all = Keeps-AllSafe es (apply e w) h' (h all)
