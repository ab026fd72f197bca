-- ===== src/Outbox/Enqueue.antt =====
-- `enqueue_team_event` of src/ei/team_outbox.py.
use Prim.Native.String.{◌++◌ as ◌⧺◌}
use text.Mathlib.Text.{starts_with}
use portable_external_intell.Prelude.{
  Bool, List, Option, Result, String, [], err, if◌then◌else◌, lookup, none, not, ok, some, str_eq,
  ℕ, ◌||◌, ◌∷◌,
}
use portable_external_intell.Capture.Record.{hash_ok}
use portable_external_intell.Outbox.State.{
  Digests, Effect, Payload, Receipt, World, pending, saves, spools,
}

-- The arguments of a call, with what the inspection of the payload objects to and what may fail the spool.
pub record Enqueued : Type 0 where
  pub payload : Payload
  pub personal_event_hash : String
  pub store_id : String
  pub member_id : String
  pub writer_id : String
  pub objection : Option String
  pub spool_fault : Option String

abbrev pub shareable : String → Bool
shareable c = str_eq c "public" || str_eq c "private-reusable"

module _ (d : Digests) where
  -- `_idempotency_key`
  abbrev pub idempotency_key : Enqueued → String
  idempotency_key q = elim q.payload.idempotency_key [
    | none ↦ d.domain_hash (q.personal_event_hash ⧺ q.store_id) "team-event-idempotency"
    | some k ↦
        if starts_with k "sha256:"
        then k
        else d.domain_hash (q.personal_event_hash ⧺ q.store_id) "team-event-idempotency"
  ]

  abbrev pub receipt_id : Enqueued → String
  receipt_id q = d.sha256_32 (q.store_id ⧺ q.personal_event_hash ⧺ idempotency_key q)

  abbrev pub root_hash_of : Payload → Option String
  root_hash_of p = elim p.team_root_hash [
    | none ↦ none
    | some h ↦ if hash_ok h then some h else none
  ]

  unfoldable pub new_receipt : ℕ → Enqueued → Receipt
  new_receipt now q = record {
    receipt_id = receipt_id q;
    status = pending;
    store_id_hash = d.domain_hash q.store_id "team-store-id";
    member_id_hash = d.domain_hash q.member_id "team-member-id";
    writer_id_hash = d.domain_hash q.writer_id "team-writer-id";
    personal_event_hash = q.personal_event_hash;
    idempotency_key = idempotency_key q;
    spool_ref = some (receipt_id q);
    created_at = now;
    attempts = 0;
    last_error_code = none;
    delivered_at = none;
    final_event_hash = none;
    team_root_hash = root_hash_of q.payload;
  }

  unfoldable pub enqueue_checked : ℕ → Enqueued → World → List Effect × Result String Receipt
  enqueue_checked now q w = elim (lookup (receipt_id q) w.receipts) [
    | some r ↦ ([], ok r)
    | none ↦ elim q.spool_fault [
      | some code ↦ ([], err code)
      | none ↦
          (spools (receipt_id q) q.payload ∷ saves (new_receipt now q) ∷ [], ok (new_receipt now q))
    ]
  ]

  -- `enqueue_team_event`
  unfoldable pub enqueue_team_event : ℕ → Enqueued → World → List Effect × Result String Receipt
  enqueue_team_event now q w =
      if not (starts_with q.personal_event_hash "sha256:")
      then ([], err "TEAM_OUTBOX_PERSONAL_HASH_INVALID")
      else if not (shareable q.payload.classification)
      then ([], err "TEAM_OUTBOX_CLASSIFICATION_REJECTED")
      else elim q.objection [ some code ↦ ([], err code) | none ↦ enqueue_checked now q w ]
