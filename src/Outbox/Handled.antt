-- ===== src/Outbox/Handled.antt =====
-- The effects for one receipt (src/ei/team_outbox.py).
use portable_external_intell.Prelude.{
  AllOk, Bool, Bool-cases, List, Option, Result, String, [], all, ap, chain-AllOk, eq_iff, err,
  false, has, if_elim, if_split, if◌then◌else◌, inl, inr, lookup, lookup-insert_self, none, not, ok,
  option_split, refl, some, str_eq, subst, sym, true, ◌&&◌, ◌++◌, ◌>>=◌, ◌∙◌, ◌∷◌, ◌≡◌, ◌⊎◌,
}
use portable_external_intell.Outbox.State.{
  DeliveryStatus, Digests, Effect, Event, Filed, Receipt, Surroundings, World, already_recorded,
  append_team_event, apply, apply_all, at_place, binding_error, deferred, failed, is_delivered,
  read_spool, same_hash, same_place, saves, waits,
}
use portable_external_intell.Outbox.Release.{release_proven, spool_present, try_release_delivered}
use portable_external_intell.Outbox.Deliver.{
  Outcome, attempted, checked_payload, clean_up, completed, deferring_codes, deliver, failed_with,
  filed_event, final_event, handle_receipt, kept_codes, receipt_saved, spool_id,
}
use portable_external_intell.Outbox.Kept.{
  AllFit, AllFit-append, AllSafe, InSpool, IsFiled, IsFiled-last, Named, Proven, Safe,
}
use portable_external_intell.Outbox.Found.{already_recorded-IsFiled}

at_place-IsFiled :
    (f : Filed) (gs : List Filed) (e : Event)
    → at_place f gs ≡ some e
    → (g : Filed) × IsFiled g gs × (g.event ≡ e)
unfolding at_place
at_place-IsFiled f [] e h = cc
at_place-IsFiled f (g ∷ gs) e h = elim (Bool-cases (same_place g f)) [
  | inl here ↦ let same : some g.event ≡ some e = rw here at h in (g, inl refl, cc)
  | inr other ↦
      let (k, filed, same) = at_place-IsFiled f gs e (rw other at h) in (k, inr filed, same)
]

apply_all-append :
    (xs ys : List Effect) (w : World) → apply_all (xs ++ ys) w ≡ apply_all ys (apply_all xs w)
unfolding apply_all
apply_all-append [] ys w = refl
apply_all-append (x ∷ xs) ys w = apply_all-append xs ys (apply x w)

same_receipt : (q r : Receipt) → some q ≡ some r → r ≡ q
same_receipt q r h = cc

own_spool :
    (o : Option String) (id own : String) → (o ≡ none) ⊎ (o ≡ some own) → o ≡ some id → id ≡ own
own_spool o id own (inl gone) h = cc
own_spool o id own (inr there) h = cc

module _ (d : Digests) where
  delivered-Proven :
      (r : Receipt) (w : World) → is_delivered r.status ≡ true → Safe d r w → Proven d r w
  delivered-Proven r w done (inl (h, proven)) = proven
  delivered-Proven r w done (inr (h, there)) = cc

  waiting-InSpool :
      (r : Receipt) (w : World) → is_delivered r.status ≡ false → Safe d r w → InSpool d r w
  waiting-InSpool r w undone (inl (h, proven)) = cc
  waiting-InSpool r w undone (inr (h, there)) = there

  attempted-Fits :
      (status : DeliveryStatus) (code : String) (r : Receipt) (w : World)
      → is_delivered status ≡ false
      → InSpool d r w
      → AllFit d r.receipt_id w (saves (attempted status code r) ∷ [])
  attempted-Fits status code r w undone there = (((refl, inr there.0), inr (undone, there)), tt)

  failed_with-Fits :
      (r : Receipt) (code : String) (w : World)
      → InSpool d r w
      → AllFit d r.receipt_id w (failed_with r code).effects
  unfolding failed_with
  failed_with-Fits r code w there =
      if_elim (λ (o : Outcome). AllFit d r.receipt_id w o.effects)
        (has deferring_codes (if has kept_codes code then code else "TEAM_OUTBOX_DELIVERY_FAILED"))
        (attempted-Fits deferred
          (if has kept_codes code then code else "TEAM_OUTBOX_DELIVERY_FAILED") r w refl there)
        (attempted-Fits failed (if has kept_codes code then code else "TEAM_OUTBOX_DELIVERY_FAILED")
          r w refl there)

  module _ (s : Surroundings) where
    abbrev FitsOf : Receipt → World → List Effect × Bool → Type 0
    FitsOf r w o = AllFit d r.receipt_id w o.0

    release_proven-Fits :
        (r : Receipt) (id : String) (present : Bool) (found : Result String (Option Event))
        (w : World)
        → id ≡ r.receipt_id
        → lookup r.receipt_id w.receipts ≡ some r
        → is_delivered r.status ≡ true
        → Proven d r w
        → AllFit d r.receipt_id w (release_proven d s r id present found).0
    unfolding apply
    release_proven-Fits r id present (err code) w own at done proven = tt
    release_proven-Fits r id present (ok none) w own at done proven = tt
    release_proven-Fits r id present (ok (some e)) w own at done proven =
        if_elim (FitsOf r w) (not (same_hash r.final_event_hash (d.event_integrity e))) tt (
          if_elim (FitsOf r w) (not present) (((refl, inl refl), inl (done, proven)), tt)
            (if_elim (FitsOf r w) (s.undeletable id) tt (
              (λ q at_q.
                  subst (λ x. (is_delivered x.status ≡ true) × Proven d x w)
                    (same_receipt q r (sym at_q ∙ rw own at)) (done, proven)),
              ((((refl, inl refl), inl (done, proven)), tt)),
            )))

    try_release-Fits :
        (r : Receipt) (w : World)
        → lookup r.receipt_id w.receipts ≡ some r
        → is_delivered r.status ≡ true
        → Named d r.receipt_id r
        → Proven d r w
        → AllFit d r.receipt_id w (try_release_delivered d s r w).0
    unfolding try_release_delivered
    try_release-Fits r w at done named proven =
        option_split (FitsOf r w) r.spool_ref (λ gone. tt)
          (λ id is_id. if_elim (FitsOf r w) (binding_error d r w) tt (
            option_split (FitsOf r w) (spool_present d s r (read_spool s id w)) (λ no. tt)
              (λ present e.
                release_proven-Fits r id present (already_recorded d r.idempotency_key w) w
                  (own_spool r.spool_ref id r.receipt_id named.1 is_id) at done proven)))

    -- What a filing has to give: an event with the digest of the final one is filed.
    abbrev Filing : Receipt → World → List Effect × Event → Type 0
    Filing r w (es, e) =
        AllFit d r.receipt_id w es
        × ((f : Filed) × IsFiled f (apply_all es w).team.events
            × (d.event_integrity f.event ≡ d.event_integrity e))

    append-Filing :
        (f : Filed) (r : Receipt) (w : World)
        → AllOk (Filing r w) (append_team_event d s f w >>= λ es. ok (es, f.event))
    unfolding append_team_event apply_all apply
    append-Filing f r w =
        option_split
          (λ (x : Result String (List Effect)). AllOk (Filing r w) (x >>= λ es. ok (es, f.event)))
          (s.unfiled f.event)
          (λ free.
            option_split
              (λ (x : Result String (List Effect)).
                AllOk (Filing r w) (x >>= λ es. ok (es, f.event)))
              (at_place f w.team.events)
              (λ vacant. ((tt, tt), (f, IsFiled-last f w.team.events, refl)))
              (λ e there.
                if_split
                  (λ (x : Result String (List Effect)).
                    AllOk (Filing r w) (x >>= λ es. ok (es, f.event)))
                  (str_eq (d.event_integrity e) (d.event_integrity f.event))
                  (λ same.
                    let (g, filed, is_e) = at_place-IsFiled f w.team.events e there in
                    (tt, (g, filed, ap d.event_integrity is_e ∙ (eq_iff _ _).0 same)))
                  (λ other. tt)))
          (λ code e. tt)

    final_event-Filing :
        (f : Filed) (r : Receipt) (w : World) (found : Result String (Option Event))
        → already_recorded d r.idempotency_key w ≡ found
        → AllOk (Filing r w) (found >>= final_event d s f w)
    unfolding apply_all
    final_event-Filing f r w (err code) h = tt
    final_event-Filing f r w (ok none) h = append-Filing f r w
    final_event-Filing f r w (ok (some e)) h =
        let (g, filed, is_e) = already_recorded-IsFiled d r.idempotency_key w e h in
        (tt, (g, filed, ap d.event_integrity is_e))

    filed_event-Filing : (r : Receipt) (w : World) → AllOk (Filing r w) (filed_event d s r w)
    filed_event-Filing r w = if_elim (AllOk (Filing r w)) (not w.team.root_exists) tt (
        chain-AllOk (Filing r w) (read_spool s (spool_id d s r) w >>= checked_payload d s r)
          (λ f. already_recorded d r.idempotency_key w >>= final_event d s f w)
          (λ f. final_event-Filing f r w (already_recorded d r.idempotency_key w) refl))

    receipt_saved-Fits :
        (r : Receipt) (w : World) (filing : Result String (List Effect × Event))
        → InSpool d r w
        → AllOk (Filing r w) filing
        → AllFit d r.receipt_id w (receipt_saved d s r w filing).effects
    unfolding apply_all apply
    receipt_saved-Fits r w (err code) there h = failed_with-Fits r code w there
    receipt_saved-Fits r w (ok (es, e)) there (fits, (f, filed, same)) =
        let c = completed d s r e in
        let proven : Proven d c (apply_all es w) = (f, filed, ap some (sym same)) in
        let (at, proven') =
          subst (λ x. (lookup r.receipt_id x.receipts ≡ some c) × Proven d c x)
            (sym (apply_all-append es (saves c ∷ []) w))
            (lookup-insert_self r.receipt_id c (apply_all es w).receipts, proven) in
        AllFit-append d r.receipt_id (es ++ saves c ∷ []) _ w
          (AllFit-append d r.receipt_id es (saves c ∷ []) w fits
            (((refl, inr there.0), inl (refl, proven)), tt))
          (try_release-Fits c _ at refl (refl, inr there.0) proven')

    abbrev FitsOutcome : Receipt → World → Outcome → Type 0
    FitsOutcome r w o = AllFit d r.receipt_id w o.effects

    deliver-Fits :
        (r : Receipt) (w : World)
        → InSpool d r w
        → AllFit d r.receipt_id w (deliver d s r w).effects
    unfolding deliver
    deliver-Fits r w there =
        if_elim (FitsOutcome r w) (binding_error d r w)
          (attempted-Fits deferred "TEAM_TARGET_BINDING_CHANGED" r w refl there)
          (receipt_saved-Fits r w (filed_event d s r w) there (filed_event-Filing r w))

    clean_up-Fits :
        (r : Receipt) (id : String) (w : World)
        → lookup r.receipt_id w.receipts ≡ some r
        → is_delivered r.status ≡ true
        → Named d r.receipt_id r
        → Proven d r w
        → AllFit d r.receipt_id w (clean_up d s r id w).effects
    unfolding clean_up
    clean_up-Fits r id w at done named proven = if_elim (FitsOutcome r w) (binding_error d r w) tt (
        option_split (FitsOutcome r w) (spool_present d s r (read_spool s id w)) (λ no. tt)
          (λ present e. try_release-Fits r w at done named proven))

    pub handle_receipt-Fits :
        (more : Bool) (r : Receipt) (w : World)
        → lookup r.receipt_id w.receipts ≡ some r
        → AllSafe d w
        → AllFit d r.receipt_id w (handle_receipt d s more r w).effects
    unfolding handle_receipt
    handle_receipt-Fits more r w at all =
        let (named, safe) = all r.receipt_id r at in
        if_split (FitsOutcome r w) (is_delivered r.status)
          (λ done.
            option_split (FitsOutcome r w) r.spool_ref (λ gone. tt)
              (λ id e. clean_up-Fits r id w at done named (delivered-Proven r w done safe)))
          (λ undone.
            if_elim (FitsOutcome r w) (more && waits r.status)
              (deliver-Fits r w (waiting-InSpool r w undone safe)) tt)
