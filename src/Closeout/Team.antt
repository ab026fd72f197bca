-- ===== src/Closeout/Team.antt =====
-- The summary of a hand-over to a team, in src/ei/closeout_association.py: `_bind_team_summary`,
-- `_team_summary_valid`, and the summary that an expiry writes. The digest over a summary is a parameter.

use portable_external_intell.Prelude.{
  Bool, Option, String, false, if◌then◌else◌, is_some, none, not, opt_eq, some, str_eq, true, ◌&&◌,
  ◌||◌,
}
use portable_external_intell.Capture.Record.{hash_ok}
use portable_external_intell.Closeout.Record.{
  Association, ReceiptStatus, TeamResult, answer_yes, delivered, delivery_id_ok, hex_id,
  not_eligible, receipt_delivered, said, team_unknown,
}
use portable_external_intell.Closeout.Equal.{receipt_status_eq}

-- `_RECEIPT_CANDIDATE_RE`
abbrev pub receipt_candidate_ok : String → Bool
receipt_candidate_ok s =
    hash_ok s || hex_id "queue_" 32 s || delivery_id_ok s || hex_id "cand_" 20 s

abbrev pub present : (String → Bool) → Option String → Bool
present test none = false
present test (some s) = test s

-- The hash of the personal event that a summary must name.
abbrev pub personal_hash : Association → Option String
personal_hash a = if said answer_yes a.decision then a.changeset_hash else none

abbrev pub both_or_none : Option String → Option String → Bool
both_or_none none none = true
both_or_none (some s) (some r) = hash_ok s && hash_ok r
both_or_none _ _ = false

abbrev pub is_delivered : Option ReceiptStatus → Bool
is_delivered none = false
is_delivered (some s) = receipt_status_eq s receipt_delivered

unfoldable pub delivered_ok : Association → TeamResult → Bool
delivered_ok a t =
    said answer_yes a.decision
    && present hash_ok t.team_store_hash
    && present hash_ok t.team_root_hash
    && present receipt_candidate_ok t.delivery_event_id
    && present hash_ok t.delivery_event_hash
    && ((not (is_some t.receipt_id_hash) && not (is_some t.receipt_status))
        || (present hash_ok t.receipt_id_hash && is_delivered t.receipt_status))

unfoldable pub not_eligible_ok : TeamResult → Bool
not_eligible_ok t =
    not (is_some t.delivery_event_id)
    && not (is_some t.delivery_event_hash)
    && not (is_some t.receipt_id_hash)
    && not (is_some t.receipt_status)
    && both_or_none t.team_store_hash t.team_root_hash

-- The summary of `_team_summary(None, None, ...)`.
abbrev pub no_summary : TeamResult
no_summary = record {
  status = team_unknown;
  reason_code = "TEAM_HANDOFF_UNKNOWN";
  personal_event_hash = none;
  team_store_hash = none;
  team_root_hash = none;
  delivery_event_id = none;
  delivery_event_hash = none;
  receipt_id_hash = none;
  receipt_status = none;
  integrity_hash = none;
}

abbrev pub hash_or_none : Option String → Option String
hash_or_none none = none
hash_or_none (some h) = if hash_ok h then some h else none

abbrev pub summary_or_none : Option TeamResult → TeamResult
summary_or_none none = no_summary
summary_or_none (some t) = t

module _ (integrity : Association → TeamResult → String) where
  -- `_bind_team_summary`
  abbrev pub bind_team_summary : Association → TeamResult → TeamResult
  bind_team_summary a t = record t { integrity_hash = some (integrity a t) }

  -- `_team_summary_valid`
  unfoldable pub team_summary_valid : Association → Option TeamResult → Bool
  team_summary_valid a none = false
  team_summary_valid a (some t) =
      present hash_ok t.integrity_hash
      && opt_eq str_eq t.integrity_hash (some (integrity a t))
      && opt_eq str_eq t.personal_event_hash (personal_hash a)
      && elim t.status [
        | delivered ↦ delivered_ok a t
        | not_eligible ↦ not_eligible_ok t
        | _ ↦ false
      ]

  -- The summary of a hand-over whose time has run out.
  unfoldable pub expired_summary : Association → TeamResult
  expired_summary a = bind_team_summary a (record (summary_or_none a.team_result) {
    status = team_unknown;
    reason_code = "TEAM_HANDOFF_EXPIRED";
    personal_event_hash = hash_or_none (personal_hash a);
  })
