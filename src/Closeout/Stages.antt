-- ===== src/Closeout/Stages.antt =====
-- The accesses to the closeout store under the capture lock in src/ei/closeout_association.py. The first
-- argument of each is the record as the caller read it before; the store may have moved since.
use portable_external_intell.Prelude.{
  Bool, List, Option, Result, String, [], err, if◌then◌else◌, ltb, none, not, ok, opt_eq, some,
  str_eq, ℕ, ◌&&◌, ◌||◌,
}
use portable_external_intell.Queue.Item.{SpoolRef, ref_eq}
use portable_external_intell.Closeout.Record.{
  ApplicationRef, Association, Decision, Intent, TeamResult, Witness, answer_no, answer_yes,
  applied, committed, lost, prepared, preparing, said, status_eq,
}
use portable_external_intell.Closeout.Equal.{
  application_ref_eq, decision_eq, list_eq, record_matches_intent, witness_eq,
}
use portable_external_intell.Closeout.Team.{bind_team_summary, expired_summary, team_summary_valid}
use portable_external_intell.Closeout.Files.{
  CloseoutStoreError, Files, StoreEnv, application_ref_conflict, proof_conflict, record_conflict,
  record_unknown, state_conflict, target_conflict,
}
use portable_external_intell.Closeout.Store.{Done, read_record, write_record}
use portable_external_intell.Closeout.Finish.{finish}

-- The digests: of a result, and of a team summary.
pub record Digests : Type 0 where
  pub result : Intent → Decision → Option String → Option String → List Witness → String
  pub integrity : Association → TeamResult → String

-- No write, and what came of it.
abbrev pub stay : Result CloseoutStoreError Association → Done Association
stay r = ([], r)

-- What is written to a record that is there, or the error.
abbrev pub on_record :
    Result CloseoutStoreError (Option Association)
    → CloseoutStoreError
    → (Association → Done Association)
    → Done Association
on_record (err e) missing_error next = stay (err e)
on_record (ok none) missing_error next = stay (err missing_error)
on_record (ok (some current)) missing_error next = next current

module _ (env : StoreEnv) (digests : Digests) where
  -- The record of an answer whose spool has been written.
  unfoldable pub prepared_of : Association → SpoolRef → Decision → String → Association
  prepared_of r ref d candidate_hash = record r {
    status = prepared;
    spool_ref = some ref;
    decision = some d;
    candidate_hash = some candidate_hash;
    reason_code = elim d [ answer_yes ↦ "CLOSEOUT_PREPARED" | answer_no ↦ "CLOSEOUT_NO_EVALUATED" ];
    result_digest = elim d [
      | answer_yes ↦ r.result_digest
      | answer_no ↦ some (digests.result r.intent answer_no none none [])
    ];
  }

  abbrev pub targets_differ : Association → Association → String → Bool
  targets_differ current r target_set_hash =
      not (str_eq current.intent.content_hash r.intent.content_hash)
      || not (str_eq current.intent.target_set_hash target_set_hash)
      || not (str_eq current.intent.binding_digest r.intent.binding_digest)

  abbrev pub same_prepared : Association → Association → Bool
  same_prepared current u =
      opt_eq ref_eq current.spool_ref u.spool_ref
      && decision_eq current.decision u.decision
      && opt_eq str_eq current.candidate_hash u.candidate_hash

  -- `_persist_prepared`
  unfoldable pub persist_prepared :
      Association → SpoolRef → Decision → String → String → Files → Done Association
  persist_prepared r ref d candidate_hash target_set_hash f =
      let u = prepared_of r ref d candidate_hash in
      on_record (read_record env r.intent.record_id f) target_conflict (λ current.
        if targets_differ current r target_set_hash
        then stay (err target_conflict)
        else elim current.status [
          | preparing ↦ write_record env u f
          | prepared ↦
              if same_prepared current u then stay (ok current) else stay (err state_conflict)
          | _ ↦ stay (err state_conflict)
        ])

  -- `_load_prepared`, behind the recovery of a planned spool.
  unfoldable pub load_prepared :
      Association → SpoolRef → Decision → String → Files → Done Association
  load_prepared r ref d candidate_hash f =
      let u = prepared_of r ref d candidate_hash in
      on_record (read_record env r.intent.record_id f) record_unknown (λ current.
        elim current.status [
          | preparing ↦ write_record env u f
          | prepared ↦
              if opt_eq ref_eq current.spool_ref (some ref)
              then stay (ok current)
              else stay (err state_conflict)
          | _ ↦ stay (err state_conflict)
        ])

  abbrev pub matching : Association → Files → (Association → Done Association) → Done Association
  matching r f next = on_record (read_record env r.intent.record_id f) record_conflict (λ current.
      if record_matches_intent current.intent r.intent
      then next current
      else stay (err record_conflict))

  abbrev pub with_application : Association → ApplicationRef → String → Association
  with_application current ref changeset_id_hash = record current {
    application_ref = some ref;
    changeset_id_hash = some changeset_id_hash;
    changeset_hash = some ref.changeset_hash;
  }

  abbrev pub application_update :
      Option ApplicationRef → Association → ApplicationRef → String → Files → Done Association
  application_update (some old) current ref changeset_id_hash f =
      if application_ref_eq old ref then stay (ok current) else stay (err application_ref_conflict)
  application_update none current ref changeset_id_hash f =
      if status_eq current.status prepared && said answer_yes current.decision
      then write_record env (with_application current ref changeset_id_hash) f
      else stay (err state_conflict)

  -- `_persist_application_ref`
  unfoldable pub persist_application_ref :
      Association → ApplicationRef → String → Files → Done Association
  persist_application_ref r ref changeset_id_hash f =
      matching r f
        (λ current. application_update current.application_ref current ref changeset_id_hash f)

  unfoldable pub applied_of : Association → List Witness → Association
  applied_of r witness = record r {
    status = applied;
    witness = witness;
    result_digest =
        some (digests.result r.intent answer_yes r.changeset_id_hash r.changeset_hash witness);
    reason_code = "APPLICATION_PROOF_VERIFIED";
  }

  -- `_persist_verified_witness`
  unfoldable pub persist_verified_witness : Association → List Witness → Files → Done Association
  persist_verified_witness r witness f =
      let u = applied_of r witness in
      matching r f (λ current.
        if status_eq current.status applied
        then (if list_eq witness_eq current.witness witness
              && opt_eq str_eq current.result_digest u.result_digest
            then stay (ok current)
            else stay (err proof_conflict))
        else if status_eq current.status prepared
            && opt_eq application_ref_eq current.application_ref r.application_ref
        then write_record env u f
        else stay (err state_conflict))

  -- `_persist_team_summary`
  unfoldable pub persist_team_summary : Association → TeamResult → Files → Done Association
  persist_team_summary r summary f = matching r f (λ current.
      if status_eq current.status committed
      then write_record env
          (record current {
            team_result = some (bind_team_summary digests.integrity current summary);
          })
          f
      else stay (err record_conflict))

  abbrev pub committed_of : Association → Association
  committed_of current = record current { status = committed; reason_code = "CLOSEOUT_COMMITTED" }

  -- `_commit_closeout`
  unfoldable pub commit_record : Association → Files → Done Association
  commit_record r f = matching r f (λ current. elim current.status [
    | committed ↦ stay (ok current)
    | prepared ↦ write_record env (committed_of current) f
    | applied ↦ write_record env (committed_of current) f
    | _ ↦ stay (err state_conflict)
  ])

  abbrev pub lost_of : Association → Association
  lost_of current = record current { status = lost; reason_code = "CLOSEOUT_CACHE_EXPIRED" }

  abbrev pub lost_handoff : Association → Association
  lost_handoff current =
      lost_of (record current { team_result = some (expired_summary digests.integrity current) })

  -- `_expire_lost_closeout`
  unfoldable pub expire_record : ℕ → Association → Files → Done Association
  expire_record now r f = matching r f (λ current.
      if status_eq current.status lost
      then stay (ok current)
      else if ltb now current.expires_at
      then stay (err state_conflict)
      else elim current.status [
        | preparing ↦ write_record env (lost_of current) f
        | prepared ↦ write_record env (lost_of current) f
        | committed ↦
            if team_summary_valid digests.integrity current current.team_result
            then stay (err state_conflict)
            else write_record env (lost_handoff current) f
        | _ ↦ stay (err state_conflict)
      ])

  -- The record is lost and has the spool of the caller's record.
  abbrev pub lost_matching :
      Option SpoolRef → Association → Files → (Association → Done Association) → Done Association
  lost_matching spool r f next = matching r f (λ current.
      if status_eq current.status lost && opt_eq ref_eq current.spool_ref spool
      then next current
      else stay (err record_conflict))

  -- `_cleanup_lost_closeout`: where the spool could not be deleted, where it could, and its end.
  unfoldable pub mark_cleanup : Association → Files → Done Association
  mark_cleanup r f =
      lost_matching r.spool_ref r f (λ current.
        write_record env (record current { reason_code = "CLOSEOUT_CLEANUP_PENDING" }) f)

  unfoldable pub release_lost : Association → Files → Done Association
  release_lost r f = lost_matching r.spool_ref r f (λ current.
      write_record env (record current { spool_ref = none; reason_code = "CLOSEOUT_CACHE_EXPIRED" })
        f)

  unfoldable pub finish_lost : Association → Files → Done Association
  finish_lost r f = lost_matching none r f (λ current. finish env current f)

  -- `_cleanup_committed`, at its end.
  unfoldable pub finish_committed : Association → Files → Done Association
  finish_committed r f = matching r f (λ current.
      if status_eq current.status committed
      then finish env (record current { spool_ref = none; reason_code = "CLOSEOUT_COMMITTED" }) f
      else stay (err record_conflict))
