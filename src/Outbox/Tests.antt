-- ===== src/Outbox/Tests.antt =====
-- Tests of the outbox, with the digests of src/ei/team_outbox.py by functions that keep what they are given.
use portable_external_intell.Prelude.{
  String, [], false, insert, lookup, none, refl, some, take, true, ◌∷◌, ◌≡◌,
}
use Prim.Native.String.{◌++◌ as ◌⧺◌}
use portable_external_intell.Outbox.State.{
  Digests, Event, Filed, Receipt, Surroundings, Team, World, already_recorded, append_team_event,
  apply, apply_all, at_place, binding_error, delivered, found_event, read_spool, remove,
}
use portable_external_intell.Outbox.Enqueue.{
  Enqueued, enqueue_checked, enqueue_team_event, new_receipt,
}
use portable_external_intell.Outbox.Release.{try_release_delivered}
use portable_external_intell.Outbox.Deliver.{clean_up, deliver, handle_receipt}
use portable_external_intell.Outbox.Drain.{counted, drain_loop, drain_team_outbox}
use portable_external_intell.Outbox.Trace.{Steps, calls, drains, effects_of, enqueues, fresh}

abbrev digests : Digests
digests = record {
  domain_hash = λ value domain. domain ⧺ ":" ⧺ value;
  sha256_32 = λ value. value;
  event_integrity = λ e. e.content;
}

abbrev event : Event
event = record {
  event_id = "e1";
  idempotency_key = some "sha256:key";
  integrity_sha256 = "body";
  content = "body";
}

abbrev team : Team
team = record {
  root_exists = true;
  root_hash = "root";
  store_id = some "store";
  events = [];
  issues = false;
}

abbrev asked : Enqueued
asked = record {
  payload = record {
    event = some event;
    member_id = some "ann";
    writer_id = some "pen";
    team_root_hash = none;
    idempotency_key = some "sha256:key";
    classification = "public";
  };
  personal_event_hash = "sha256:p";
  store_id = "store";
  member_id = "ann";
  writer_id = "pen";
  objection = none;
  spool_fault = none;
}

abbrev sound : Surroundings
sound = record {
  now = 7;
  configured = true;
  unreadable = λ id. none;
  undeletable = λ id. false;
  unfiled = λ e. none;
}

abbrev id : String
id = "storesha256:psha256:key"

abbrev receipt : Receipt
receipt = record {
  receipt_id = id;
  status = delivered;
  store_id_hash = "team-store-id:store";
  member_id_hash = "team-member-id:ann";
  writer_id_hash = "team-writer-id:pen";
  personal_event_hash = "sha256:p";
  idempotency_key = "sha256:key";
  spool_ref = none;
  created_at = 3;
  attempts = 1;
  last_error_code = none;
  delivered_at = some 7;
  final_event_hash = some "body";
  team_root_hash = none;
}

abbrev filed : Filed
filed = record { member_id = "ann"; writer_id = "pen"; event = event }

abbrev world : World
world = record {
  receipts = (id, receipt) ∷ [];
  spool = [];
  team = record team { events = filed ∷ [] };
}

-- The spool is deleted, and the receipt says so last.
abbrev cut : World
cut = record world { receipts = (id, record receipt { spool_ref = some id }) ∷ [] }

cutting : Steps digests team cut
unfolding enqueue_team_event enqueue_checked new_receipt apply_all apply lookup insert remove
    effects_of take drain_team_outbox drain_loop handle_receipt deliver binding_error read_spool
    already_recorded found_event append_team_event at_place try_release_delivered counted
cutting = calls (drains sound 10) 3 (calls (enqueues 3 asked) 9 fresh)

-- The next drain repairs the receipt.
repaired : apply_all (drain_team_outbox digests sound 10 cut).0 cut ≡ world
unfolding apply_all apply lookup insert remove drain_team_outbox drain_loop handle_receipt clean_up
    binding_error read_spool already_recorded found_event try_release_delivered counted
repaired = refl
