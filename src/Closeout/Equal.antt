-- ===== src/Closeout/Equal.antt =====
-- `==` of the parts of a closeout record, as Python compares its JSON values.
use portable_external_intell.Prelude.{
  Bool, List, Option, [], false, none, opt_eq, some, str_eq, true, ◌&&◌, ◌==◌, ◌∷◌,
}
use portable_external_intell.Queue.Item.{ref_eq}
use portable_external_intell.Closeout.Record.{
  ApplicationRef, Association, Decision, Intent, ReceiptStatus, TeamResult, TeamStatus, Witness,
  deferred, delivered, not_eligible, receipt_deferred, receipt_delivered, receipt_failed,
  receipt_pending, said, status_eq, team_pending, team_unknown,
}

unfoldable pub list_eq {ℓ} : {A : Type ℓ} → (A → A → Bool) → List A → List A → Bool
list_eq eq [] [] = true
list_eq eq (x ∷ xs) (y ∷ ys) = eq x y && list_eq eq xs ys
list_eq eq _ _ = false

-- `_record_matches_intent`
unfoldable pub record_matches_intent : Intent → Intent → Bool
record_matches_intent a b =
    str_eq a.record_id b.record_id
    && str_eq a.host_hash b.host_hash
    && str_eq a.instance_hash b.instance_hash
    && str_eq a.store_hash b.store_hash
    && str_eq a.session_hash b.session_hash
    && str_eq a.record_hash b.record_hash
    && str_eq a.cwd_hash b.cwd_hash
    && str_eq a.domain_hash b.domain_hash
    && list_eq str_eq a.target_ids b.target_ids
    && str_eq a.target_set_hash b.target_set_hash
    && str_eq a.binding_digest b.binding_digest
    && str_eq a.content_hash b.content_hash

unfoldable pub application_ref_eq : ApplicationRef → ApplicationRef → Bool
application_ref_eq a b =
    str_eq a.marker_id b.marker_id
    && a.occurred_at == b.occurred_at
    && str_eq a.changeset_hash b.changeset_hash

unfoldable pub witness_eq : Witness → Witness → Bool
witness_eq a b =
    str_eq a.event_id b.event_id
    && a.occurred_at == b.occurred_at
    && str_eq a.integrity_digest b.integrity_digest

abbrev pub team_status_eq : TeamStatus → TeamStatus → Bool
team_status_eq a b = elim a [
  | delivered ↦ elim b [ delivered ↦ true | _ ↦ false ]
  | not_eligible ↦ elim b [ not_eligible ↦ true | _ ↦ false ]
  | deferred ↦ elim b [ deferred ↦ true | _ ↦ false ]
  | team_pending ↦ elim b [ team_pending ↦ true | _ ↦ false ]
  | team_unknown ↦ elim b [ team_unknown ↦ true | _ ↦ false ]
]

abbrev pub receipt_status_eq : ReceiptStatus → ReceiptStatus → Bool
receipt_status_eq a b = elim a [
  | receipt_pending ↦ elim b [ receipt_pending ↦ true | _ ↦ false ]
  | receipt_deferred ↦ elim b [ receipt_deferred ↦ true | _ ↦ false ]
  | receipt_delivered ↦ elim b [ receipt_delivered ↦ true | _ ↦ false ]
  | receipt_failed ↦ elim b [ receipt_failed ↦ true | _ ↦ false ]
]

unfoldable pub team_eq : TeamResult → TeamResult → Bool
team_eq a b =
    team_status_eq a.status b.status
    && str_eq a.reason_code b.reason_code
    && opt_eq str_eq a.personal_event_hash b.personal_event_hash
    && opt_eq str_eq a.team_store_hash b.team_store_hash
    && opt_eq str_eq a.team_root_hash b.team_root_hash
    && opt_eq str_eq a.delivery_event_id b.delivery_event_id
    && opt_eq str_eq a.delivery_event_hash b.delivery_event_hash
    && opt_eq str_eq a.receipt_id_hash b.receipt_id_hash
    && opt_eq receipt_status_eq a.receipt_status b.receipt_status
    && opt_eq str_eq a.integrity_hash b.integrity_hash

abbrev pub decision_eq : Option Decision → Option Decision → Bool
decision_eq none none = true
decision_eq (some d) e = said d e
decision_eq none (some e) = false

unfoldable pub association_eq : Association → Association → Bool
association_eq a b =
    a.schema_version == b.schema_version
    && record_matches_intent a.intent b.intent
    && status_eq a.status b.status
    && a.created_at == b.created_at
    && a.expires_at == b.expires_at
    && str_eq a.spool_id b.spool_id
    && opt_eq ref_eq a.spool_ref b.spool_ref
    && decision_eq a.decision b.decision
    && opt_eq str_eq a.candidate_hash b.candidate_hash
    && opt_eq str_eq a.changeset_id_hash b.changeset_id_hash
    && opt_eq str_eq a.changeset_hash b.changeset_hash
    && opt_eq application_ref_eq a.application_ref b.application_ref
    && list_eq witness_eq a.witness b.witness
    && opt_eq team_eq a.team_result b.team_result
    && str_eq a.reason_code b.reason_code
    && opt_eq str_eq a.result_digest b.result_digest
