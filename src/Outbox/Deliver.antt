-- ===== src/Outbox/Deliver.antt =====
-- What `drain_team_outbox` of src/ei/team_outbox.py does with one receipt.
use portable_external_intell.Prelude.{
  Bool, List, Option, Result, String, [], err, has, if◌then◌else◌, is_some, none, not, ok, opt_eq,
  some, str_eq, ◌&&◌, ◌++◌, ◌+◌, ◌>>=◌, ◌∷◌,
}
use portable_external_intell.Outbox.State.{
  DeliveryStatus, Digests, Effect, Event, Filed, Payload, Receipt, Surroundings, World,
  already_recorded, append_team_event, apply_all, binding_error, deferred, delivered, failed,
  identity_matches, is_delivered, read_spool, saves, waits,
}
use portable_external_intell.Outbox.Release.{spool_present, try_release_delivered}

-- What comes of a receipt, beside its effects: how it counts, and the reason in the list of errors.
pub data Count : Type 0 where
  uncounted as_delivered as_deferred as_failed : Count

pub record Outcome : Type 0 where
  pub effects : List Effect
  pub count : Count
  pub reason : Option String

abbrev pub passed_over : Outcome
passed_over = record { effects = []; count = uncounted; reason = none }

abbrev pub kept_codes : List String
kept_codes =
    "TEAM_ROOT_UNAVAILABLE" ∷ "SPOOL_NOT_FOUND" ∷ "TEAM_SCAN_INCOMPLETE"
    ∷ "TEAM_IDEMPOTENCY_CONFLICT" ∷ "TEAM_DELIVERY_PROOF_UNAVAILABLE" ∷ "TEAM_EVENT_NOT_READY"
    ∷ "TEAM_EVENT_INTEGRITY_INVALID" ∷ "TEAM_EVENT_IDENTITY_INVALID" ∷ "TEAM_EVENT_BINDING_INVALID"
    ∷ "TEAM_TARGET_BINDING_CHANGED" ∷ []

abbrev pub deferring_codes : List String
deferring_codes =
    "TEAM_ROOT_UNAVAILABLE" ∷ "SPOOL_NOT_FOUND" ∷ "TEAM_SCAN_INCOMPLETE"
    ∷ "TEAM_IDEMPOTENCY_CONFLICT" ∷ "TEAM_DELIVERY_PROOF_UNAVAILABLE" ∷ "TEAM_EVENT_BINDING_INVALID"
    ∷ "TEAM_TARGET_BINDING_CHANGED" ∷ []

abbrev pub attempted : DeliveryStatus → String → Receipt → Receipt
attempted status code r = record r {
  status = status;
  attempts = r.attempts + 1;
  last_error_code = some code;
}

-- The handler of the errors of a delivery.
unfoldable pub failed_with : Receipt → String → Outcome
failed_with r code =
    let reason = if has kept_codes code then code else "TEAM_OUTBOX_DELIVERY_FAILED" in
    if has deferring_codes reason
    then record {
      effects = saves (attempted deferred reason r) ∷ [];
      count = as_deferred;
      reason = none;
    }
    else record {
      effects = saves (attempted failed reason r) ∷ [];
      count = as_failed;
      reason = some reason;
    }

module _ (d : Digests) (s : Surroundings) where
  -- The checks of the event that was spooled: where it is filed.
  abbrev pub checked_payload : Receipt → Payload → Result String Filed
  checked_payload r p = elim p.event [
    | none ↦ err "TEAM_EVENT_NOT_READY"
    | some e ↦
        if is_some r.team_root_hash && not (opt_eq str_eq r.team_root_hash p.team_root_hash)
        then err "TEAM_EVENT_BINDING_INVALID"
        else if not (str_eq (d.event_integrity e) e.integrity_sha256)
        then err "TEAM_EVENT_INTEGRITY_INVALID"
        else elim p.member_id [
          | none ↦ err "TEAM_EVENT_IDENTITY_INVALID"
          | some member ↦ elim p.writer_id [
            | none ↦ err "TEAM_EVENT_IDENTITY_INVALID"
            | some writer ↦
                if identity_matches d r p
                then ok (record { member_id = member; writer_id = writer; event = e })
                else err "TEAM_TARGET_BINDING_CHANGED"
          ]
        ]
  ]

  abbrev pub completed : Receipt → Event → Receipt
  completed r e = record r {
    status = delivered;
    attempts = r.attempts + 1;
    delivered_at = some s.now;
    final_event_hash = some (d.event_integrity e);
    last_error_code = none;
  }

  -- The event that stands for the receipt, and the writes that file it.
  abbrev pub final_event : Filed → World → Option Event → Result String (List Effect × Event)
  final_event f w (some e) = ok ([], e)
  final_event f w none = append_team_event d s f w >>= λ es. ok (es, f.event)

  abbrev pub receipt_saved : Receipt → World → Result String (List Effect × Event) → Outcome
  receipt_saved r w (err code) = failed_with r code
  receipt_saved r w (ok (es, e)) =
      let so_far = es ++ saves (completed r e) ∷ [] in
      let (more, done) = try_release_delivered d s (completed r e) (apply_all so_far w) in
      record {
        effects = so_far ++ more;
        count = as_delivered;
        reason = if done then none else some "TEAM_DELIVERY_CLEANUP_PENDING";
      }

  abbrev pub spool_id : Receipt → String
  spool_id r = elim r.spool_ref [ none ↦ r.receipt_id | some id ↦ id ]

  -- The body of the `try` up to the receipt.
  abbrev pub filed_event : Receipt → World → Result String (List Effect × Event)
  filed_event r w =
      if not w.team.root_exists
      then err "TEAM_ROOT_UNAVAILABLE"
      else read_spool s (spool_id r) w >>= checked_payload r >>= λ f.
          already_recorded d r.idempotency_key w >>= final_event f w

  unfoldable pub deliver : Receipt → World → Outcome
  deliver r w =
      if binding_error d r w
      then record {
        effects = saves (attempted deferred "TEAM_TARGET_BINDING_CHANGED" r) ∷ [];
        count = as_deferred;
        reason = none;
      }
      else receipt_saved r w (filed_event r w)

  -- A delivered receipt whose spool is still there.
  unfoldable pub clean_up : Receipt → String → World → Outcome
  clean_up r id w =
      let changed = record passed_over { reason = some "TEAM_TARGET_BINDING_CHANGED" } in
      if binding_error d r w then changed else elim (spool_present d s r (read_spool s id w)) [
        | none ↦ changed
        | some present ↦
            let (es, done) = try_release_delivered d s r w in
            record {
              effects = es;
              count = uncounted;
              reason = if done then none else some "TEAM_DELIVERY_CLEANUP_PENDING";
            }
      ]

  -- The body of the loop; `more` says whether another receipt may be attempted.
  unfoldable pub handle_receipt : Bool → Receipt → World → Outcome
  handle_receipt more r w =
      if is_delivered r.status
      then elim r.spool_ref [ none ↦ passed_over | some id ↦ clean_up r id w ]
      else if more && waits r.status
      then deliver r w
      else passed_over
