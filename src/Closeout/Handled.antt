-- ===== src/Closeout/Handled.antt =====
-- The stages of src/ei/closeout_association.py, write by write, from what their callers read before.
use portable_external_intell.Prelude.{
  Bool, List, Option, Result, String, arith, err, if_elim, if_split, lookup, ltb, none, ok, opt_eq,
  refl, some, str_eq, true, ℕ, ◌&&◌, ◌≡◌, ◌≤◌,
}
use portable_external_intell.Queue.Item.{SpoolRef, ref_eq}
use portable_external_intell.Closeout.Record.{
  ApplicationRef, Association, Decision, Status, TeamResult, Witness, answer_yes, applied,
  committed, lost, prepared, preparing, said, status_eq,
}
use portable_external_intell.Closeout.Equal.{
  application_ref_eq, list_eq, record_matches_intent, witness_eq,
}
use portable_external_intell.Closeout.Team.{team_summary_valid}
use portable_external_intell.Closeout.Files.{
  CloseoutStoreError, Files, StoreEnv, holds, record_conflict, record_unknown, target_conflict,
}
use portable_external_intell.Closeout.Store.{Done, read_record, write_record}
use portable_external_intell.Closeout.Stages.{
  Digests, application_update, applied_of, commit_record, committed_of, expire_record,
  finish_committed, finish_lost, load_prepared, lost_matching, mark_cleanup, matching, on_record,
  persist_application_ref, persist_prepared, persist_team_summary, persist_verified_witness,
  prepared_of, release_lost, same_prepared, targets_differ, with_application,
}
use portable_external_intell.Closeout.Reading.{Found, read_record-Found}
use portable_external_intell.Closeout.Follows.{
  Follows, Follows-refl, applied_of-Follows, prepared_of-Follows, rank, restatus-Follows,
  with_application-Follows,
}
use portable_external_intell.Closeout.Guarded.{Guarded}
use portable_external_intell.Closeout.Writes.{finish-Guarded, write_record-Guarded}

-- What is on file by the name of a record goes on from it.
abbrev pub Before : Association → Files → Type 0
Before r f = (c : Association) → lookup r.intent.record_id f.records ≡ some (holds c) → Follows r c

-- Every write of what was done keeps the files.
abbrev Kept : Files → Done Association → Type 0
Kept f d = Guarded f d.0

on_record-Guarded :
    (found : Result CloseoutStoreError (Option Association)) (e : CloseoutStoreError)
    (next : Association → Done Association) (f : Files)
    → ((c : Association) → found ≡ ok (some c) → Guarded f (next c).0)
    → Guarded f (on_record found e next).0
on_record-Guarded (err x) e next f h = tt
on_record-Guarded (ok none) e next f h = tt
on_record-Guarded (ok (some c)) e next f h = h c refl

-- What holds of each case holds of a case distinction by the status.
status_split :
    {A : Type 0} (Holds : A → Type 0) (s : Status) {p q r t u : A}
    → (s ≡ preparing → Holds p)
    → (s ≡ prepared → Holds q)
    → (s ≡ applied → Holds r)
    → (s ≡ committed → Holds t)
    → (s ≡ lost → Holds u)
    → Holds (elim s [ preparing ↦ p | prepared ↦ q | applied ↦ r | committed ↦ t | lost ↦ u ])
status_split Holds preparing hp hq hr ht hu = hp refl
status_split Holds prepared hp hq hr ht hu = hq refl
status_split Holds applied hp hq hr ht hu = hr refl
status_split Holds committed hp hq hr ht hu = ht refl
status_split Holds lost hp hq hr ht hu = hu refl

status_eq-same : (a b : Status) → status_eq a b ≡ true → a ≡ b
status_eq-same a b h = ground arith

left_true : (a b : Bool) → (a && b) ≡ true → a ≡ true
left_true a b h = ground (arith, h)

rank-lost : (s : Status) → rank s ≤ rank lost
rank-lost s = ground arith

module _ (env : StoreEnv) (digests : Digests) where
  matching-Guarded :
      (r : Association) (f : Files) (next : Association → Done Association)
      → ((c : Association) → Found env r.intent.record_id f c → Guarded f (next c).0)
      → Guarded f (matching env digests r f next).0
  matching-Guarded r f next h =
      on_record-Guarded (read_record env r.intent.record_id f) record_conflict _ f (λ c read.
        if_elim (Kept f) (record_matches_intent c.intent r.intent)
          (h c (read_record-Found env r.intent.record_id f c read)) tt)

  pub persist_prepared-Guarded :
      (r : Association) (ref : SpoolRef) (d : Decision) (candidate_hash target : String) (f : Files)
      → Before r f
      → Guarded f (persist_prepared env digests r ref d candidate_hash target f).0
  unfolding persist_prepared
  persist_prepared-Guarded r ref d candidate_hash target f before =
      on_record-Guarded (read_record env r.intent.record_id f) target_conflict _ f (λ c read.
        let found = read_record-Found env r.intent.record_id f c read in
        if_elim (Kept f) (targets_differ env digests c r target) tt (
          status_split (Kept f) c.status
            (λ s. write_record-Guarded env r.intent.record_id f c _ found (λ ruled.
              prepared_of-Follows digests env r c ref d candidate_hash (before c found.held.file)
                found.held.ruled s))
            (λ s.
              if_elim (Kept f)
                (same_prepared env digests c (prepared_of env digests r ref d candidate_hash)) tt
                tt)
            (λ s. tt) (λ s. tt) (λ s. tt)))

  pub load_prepared-Guarded :
      (r : Association) (ref : SpoolRef) (d : Decision) (candidate_hash : String) (f : Files)
      → Before r f
      → Guarded f (load_prepared env digests r ref d candidate_hash f).0
  unfolding load_prepared
  load_prepared-Guarded r ref d candidate_hash f before =
      on_record-Guarded (read_record env r.intent.record_id f) record_unknown _ f (λ c read.
        let found = read_record-Found env r.intent.record_id f c read in
        status_split (Kept f) c.status
          (λ s. write_record-Guarded env r.intent.record_id f c _ found (λ ruled.
            prepared_of-Follows digests env r c ref d candidate_hash (before c found.held.file)
              found.held.ruled s))
          (λ s. if_elim (Kept f) (opt_eq ref_eq c.spool_ref (some ref)) tt tt) (λ s. tt) (λ s. tt)
          (λ s. tt))

  application_update-Guarded :
      (o : Option ApplicationRef) (rid : String) (c : Association) (ref : ApplicationRef)
      (id : String) (f : Files)
      → Found env rid f c
      → c.application_ref ≡ o
      → Guarded f (application_update env digests o c ref id f).0
  application_update-Guarded (some old) rid c ref id f found e =
      if_elim (Kept f) (application_ref_eq old ref) tt tt
  application_update-Guarded none rid c ref id f found e =
      if_elim (Kept f) (status_eq c.status prepared && said answer_yes c.decision)
        (write_record-Guarded env rid f c (with_application env digests c ref id) found
          (λ ruled. with_application-Follows env digests c ref id e))
        tt

  pub persist_application_ref-Guarded :
      (r : Association) (ref : ApplicationRef) (id : String) (f : Files)
      → Guarded f (persist_application_ref env digests r ref id f).0
  unfolding persist_application_ref
  persist_application_ref-Guarded r ref id f = matching-Guarded r f _ (λ c found.
      application_update-Guarded c.application_ref r.intent.record_id c ref id f found refl)

  pub persist_verified_witness-Guarded :
      (r : Association) (witness : List Witness) (f : Files)
      → Before r f
      → Guarded f (persist_verified_witness env digests r witness f).0
  unfolding persist_verified_witness
  persist_verified_witness-Guarded r witness f before = matching-Guarded r f _ (λ c found.
      if_elim (Kept f) (status_eq c.status applied)
        (if_elim (Kept f)
          (list_eq witness_eq c.witness witness
            && opt_eq str_eq c.result_digest (applied_of env digests r witness).result_digest)
          tt tt)
        (if_split (Kept f)
          (status_eq c.status prepared
            && opt_eq application_ref_eq c.application_ref r.application_ref)
          (λ test. write_record-Guarded env r.intent.record_id f c _ found (λ ruled.
            applied_of-Follows digests env r c witness (before c found.held.file) found.held.ruled
              ruled (status_eq-same c.status prepared (left_true _ _ test))))
          (λ test. tt)))

  pub persist_team_summary-Guarded :
      (r : Association) (summary : TeamResult) (f : Files)
      → Guarded f (persist_team_summary env digests r summary f).0
  unfolding persist_team_summary
  persist_team_summary-Guarded r summary f = matching-Guarded r f _ (λ c found.
      if_elim (Kept f) (status_eq c.status committed)
        (write_record-Guarded env r.intent.record_id f c _ found
          (λ ruled. restatus-Follows c c.status c.spool_ref _ c.reason_code (omega arith)))
        tt)

  commit-Guarded :
      (id : String) (c : Association) (f : Files)
      → Found env id f c
      → rank c.status ≤ 3
      → Guarded f (write_record env (committed_of env digests c) f).0
  commit-Guarded id c f found up =
      write_record-Guarded env id f c _ found
        (λ ruled. restatus-Follows c committed c.spool_ref c.team_result "CLOSEOUT_COMMITTED" up)

  pub commit_record-Guarded :
      (r : Association) (f : Files) → Guarded f (commit_record env digests r f).0
  unfolding commit_record
  commit_record-Guarded r f = matching-Guarded r f _ (λ c found.
      status_split (Kept f) c.status (λ s. tt)
        (λ s. commit-Guarded r.intent.record_id c f found (rw s (omega arith)))
        (λ s. commit-Guarded r.intent.record_id c f found (rw s (omega arith))) (λ s. tt) (λ s. tt))

  lost-Guarded :
      (id : String) (c : Association) (t : Option TeamResult) (f : Files)
      → Found env id f c
      → Guarded f
          (write_record env
            (record c { status = lost; reason_code = "CLOSEOUT_CACHE_EXPIRED"; team_result = t })
            f).0
  lost-Guarded id c t f found =
      write_record-Guarded env id f c _ found
        (λ ruled. restatus-Follows c lost c.spool_ref t _ (rank-lost c.status))

  pub expire_record-Guarded :
      (now : ℕ) (r : Association) (f : Files) → Guarded f (expire_record env digests now r f).0
  unfolding expire_record
  expire_record-Guarded now r f = matching-Guarded r f _ (λ c found.
      if_elim (Kept f) (status_eq c.status lost) tt (
        if_elim (Kept f) (ltb now c.expires_at) tt (
          status_split (Kept f) c.status
            (λ s. lost-Guarded r.intent.record_id c c.team_result f found)
            (λ s. lost-Guarded r.intent.record_id c c.team_result f found) (λ s. tt)
            (λ s.
              if_elim (Kept f) (team_summary_valid digests.integrity c c.team_result) tt
                (lost-Guarded r.intent.record_id c _ f found))
            (λ s. tt))))

  lost_matching-Guarded :
      (spool : Option SpoolRef) (r : Association) (f : Files)
      (next : Association → Done Association)
      → ((c : Association) → Found env r.intent.record_id f c → Guarded f (next c).0)
      → Guarded f (lost_matching env digests spool r f next).0
  lost_matching-Guarded spool r f next h = matching-Guarded r f _ (λ c found.
      if_elim (Kept f) (status_eq c.status lost && opt_eq ref_eq c.spool_ref spool) (h c found) tt)

  pub mark_cleanup-Guarded :
      (r : Association) (f : Files) → Guarded f (mark_cleanup env digests r f).0
  unfolding mark_cleanup
  mark_cleanup-Guarded r f = lost_matching-Guarded r.spool_ref r f _ (λ c found.
      write_record-Guarded env r.intent.record_id f c _ found
        (λ ruled. restatus-Follows c c.status c.spool_ref c.team_result _ (omega arith)))

  pub release_lost-Guarded :
      (r : Association) (f : Files) → Guarded f (release_lost env digests r f).0
  unfolding release_lost
  release_lost-Guarded r f = lost_matching-Guarded r.spool_ref r f _ (λ c found.
      write_record-Guarded env r.intent.record_id f c _ found
        (λ ruled. restatus-Follows c c.status none c.team_result _ (omega arith)))

  pub finish_lost-Guarded :
      (r : Association) (f : Files) → Guarded f (finish_lost env digests r f).0
  unfolding finish_lost
  finish_lost-Guarded r f =
      lost_matching-Guarded none r f _
        (λ c found. finish-Guarded env r.intent.record_id f c c found (Follows-refl c))

  pub finish_committed-Guarded :
      (r : Association) (f : Files) → Guarded f (finish_committed env digests r f).0
  unfolding finish_committed
  finish_committed-Guarded r f = matching-Guarded r f _ (λ c found.
      if_elim (Kept f) (status_eq c.status committed)
        (finish-Guarded env r.intent.record_id f c _ found
          (restatus-Follows c c.status none c.team_result _ (omega arith)))
        tt)
