-- ===== src/Closeout/Schema.antt =====
-- `_validate_closeout_association` of src/ei/journal.py, with the field that an error names. The search for
-- forbidden content in the texts is a parameter.
use portable_external_intell.Prelude.{
  Bool, List, Option, Result, String, [], all, err, has, if◌then◌else◌, is_nil, is_some, leb,
  length, ltb, none, not, ok, opt_eq, some, str_eq, true, ◌&&◌, ◌==◌, ◌>>◌, ◌||◌, ◌∷◌,
}
use portable_external_intell.Capture.Record.{hash_ok}
use portable_external_intell.Queue.Item.{SpoolRef}
use portable_external_intell.Closeout.Record.{
  ApplicationRef, Association, Intent, TeamResult, Witness, answer_no, answer_yes, applied,
  ascending, committed, delivery_id_ok, hex_id, optional_ok, prepared, preparing, reason_code_ok,
  record_id_ok, said, status_eq,
}

-- `if wrong: _schema_error(name, field)`
abbrev pub refuse : Bool → String → Result String (Unit {0})
refuse wrong field = if wrong then err field else ok tt

abbrev pub spool_ref_ok : String → Option SpoolRef → Bool
spool_ref_ok spool_id none = true
spool_ref_ok spool_id (some r) =
    hash_ok r.content_hash
    && not (str_eq r.classification "")
    && optional_ok (λ k. not (str_eq k "")) r.key_id
    && str_eq r.purpose "validated-result"
    && str_eq r.spool_id spool_id

abbrev pub application_ref_ok : Option String → Option ApplicationRef → Bool
application_ref_ok changeset none = true
application_ref_ok changeset (some r) =
    hex_id "evt_changeset_" 32 r.marker_id
    && hash_ok r.changeset_hash
    && opt_eq str_eq changeset (some r.changeset_hash)

-- The loop over the witness, with the events seen so far.
unfoldable pub witness_ok : List String → List Witness → Bool
witness_ok seen [] = true
witness_ok seen (w ∷ ws) =
    hex_id "evt_changeset_" 32 w.event_id
    && not (has seen w.event_id)
    && hex_id "" 64 w.integrity_digest
    && witness_ok (w.event_id ∷ seen) ws

abbrev pub team_result_ok : Option TeamResult → Bool
team_result_ok none = true
team_result_ok (some t) =
    reason_code_ok t.reason_code
    && optional_ok hash_ok t.personal_event_hash
    && optional_ok hash_ok t.team_store_hash
    && optional_ok hash_ok t.team_root_hash
    && optional_ok hash_ok t.delivery_event_hash
    && optional_ok hash_ok t.receipt_id_hash
    && optional_ok hash_ok t.integrity_hash
    && optional_ok delivery_id_ok t.delivery_event_id

-- `_require_hash_sequence` and the bounds on the targets.
unfoldable pub target_ids_ok : List String → Bool
target_ids_ok ids = all hash_ok ids && leb 1 (length ids) && leb (length ids) 64 && ascending ids

abbrev pub hashes_ok : Intent → Bool
hashes_ok i =
    hash_ok i.host_hash
    && hash_ok i.instance_hash
    && hash_ok i.store_hash
    && hash_ok i.session_hash
    && hash_ok i.record_hash
    && hash_ok i.cwd_hash
    && hash_ok i.domain_hash
    && hash_ok i.target_set_hash
    && hash_ok i.binding_digest
    && hash_ok i.content_hash

-- The checks of each field by itself.
unfoldable pub fields_ok : Association → Result String (Unit {0})
fields_ok a =
    refuse (not (a.schema_version == 1)) "fields"
    >> refuse (not (record_id_ok a.intent.record_id)) "record_id"
    >> refuse (not (hashes_ok a.intent)) "hash"
    >> refuse (not (target_ids_ok a.intent.target_ids)) "target_ids"
    >> refuse (not (hex_id "spool_" 32 a.spool_id)) "spool_id"
    >> refuse (not (spool_ref_ok a.spool_id a.spool_ref)) "spool_ref"
    >> refuse (not (optional_ok hash_ok a.candidate_hash)) "candidate_hash"
    >> refuse (not (optional_ok hash_ok a.changeset_id_hash)) "changeset_id_hash"
    >> refuse (not (optional_ok hash_ok a.changeset_hash)) "changeset_hash"
    >> refuse (not (optional_ok hash_ok a.result_digest)) "result_digest"
    >> refuse (not (application_ref_ok a.changeset_hash a.application_ref)) "application_ref"
    >> refuse (not (leb (length a.witness) 65 && witness_ok [] a.witness)) "witness"
    >> refuse (not (reason_code_ok a.reason_code)) "reason_code"
    >> refuse (not (team_result_ok a.team_result)) "team_result"

-- `a is None != b is None`
abbrev pub differ : Bool → Bool → Bool
differ a b = if a then not b else b

-- A part of the evidence that a change was applied is there.
abbrev pub has_application : Association → Bool
has_application a =
    is_some a.application_ref || is_some a.changeset_hash || is_some a.changeset_id_hash

abbrev pub preparing_wrong : Association → Bool
preparing_wrong a =
    is_some a.decision
    || is_some a.spool_ref
    || is_some a.candidate_hash
    || is_some a.changeset_id_hash
    || is_some a.changeset_hash
    || is_some a.application_ref
    || not (is_nil a.witness)
    || is_some a.result_digest

abbrev pub prepared_wrong : Association → Bool
prepared_wrong a =
    not (is_some a.decision)
    || not (is_some a.spool_ref)
    || not (is_some a.candidate_hash)
    || not (is_nil a.witness)

abbrev pub half_application : Association → Bool
half_application a =
    differ (is_some a.application_ref) (is_some a.changeset_hash)
    || differ (is_some a.application_ref) (is_some a.changeset_id_hash)

abbrev pub prepared_digest_wrong : Association → Bool
prepared_digest_wrong a =
    (said answer_yes a.decision && is_some a.result_digest)
    || (said answer_no a.decision && not (is_some a.result_digest))

abbrev pub applied_wrong : Association → Bool
applied_wrong a =
    not (said answer_yes a.decision)
    || not (is_some a.spool_ref)
    || not (is_some a.candidate_hash)
    || not (is_some a.changeset_id_hash)
    || not (is_some a.application_ref)
    || ltb (length a.witness) 2
    || not (is_some a.result_digest)

abbrev pub committed_yes_wrong : Association → Bool
committed_yes_wrong a =
    said answer_yes a.decision
    && (not (is_some a.application_ref)
        || not (is_some a.changeset_id_hash)
        || not (is_some a.changeset_hash)
        || ltb (length a.witness) 2)

abbrev pub no_with_application : Association → Bool
no_with_application a = said answer_no a.decision && (has_application a || not (is_nil a.witness))

-- The checks of the fields against the status.
unfoldable pub status_rules : Association → Result String (Unit {0})
status_rules a =
    refuse (status_eq a.status preparing && preparing_wrong a) "status"
    >> refuse (status_eq a.status prepared && prepared_wrong a) "status"
    >> refuse (status_eq a.status prepared && half_application a) "application_ref"
    >> refuse (status_eq a.status prepared && said answer_no a.decision && has_application a)
        "decision"
    >> refuse (status_eq a.status prepared && prepared_digest_wrong a) "result_digest"
    >> refuse (status_eq a.status applied && applied_wrong a) "status"
    >> refuse
        (status_eq a.status committed
          && (not (is_some a.decision) || not (is_some a.result_digest)))
        "status"
    >> refuse (status_eq a.status committed && committed_yes_wrong a) "status"
    >> refuse (status_eq a.status committed && no_with_application a) "status"
    >> refuse (no_with_application a) "decision"

module _ (forbidden : Association → Bool) where
  unfoldable pub validate_association : Association → Result String (Unit {0})
  validate_association a = fields_ok a >> status_rules a >> refuse (forbidden a) "content"
