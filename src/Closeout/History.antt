-- ===== src/Closeout/History.antt =====
-- Sequences of accesses to the closeout store, by callers that act on what they read before, and with
-- crashes between any two writes (src/ei/closeout_store.py, src/ei/closeout_association.py).
use portable_external_intell.Prelude.{
  List, Option, String, [], lookup, none, refl, some, take, ℕ, ◌∷◌, ◌≡◌, ◌⊎◌,
}
use portable_external_intell.Queue.Item.{SpoolRef}
use portable_external_intell.Closeout.Record.{
  ApplicationRef, Association, Decision, TeamResult, Witness,
}
use portable_external_intell.Closeout.Files.{Files, StoreEnv, holds}
use portable_external_intell.Closeout.Store.{Write, advance_cursor, apply_all, reserve}
use portable_external_intell.Closeout.Stages.{
  Digests, commit_record, expire_record, finish_committed, finish_lost, load_prepared, mark_cleanup,
  persist_application_ref, persist_prepared, persist_team_summary, persist_verified_witness,
  release_lost,
}
use portable_external_intell.Closeout.Guarded.{Guarded}
use portable_external_intell.Closeout.Reserve.{advance-Guarded, reserve-Guarded}
use portable_external_intell.Closeout.Handled.{
  Before, commit_record-Guarded, expire_record-Guarded, finish_committed-Guarded,
  finish_lost-Guarded, load_prepared-Guarded, mark_cleanup-Guarded, persist_application_ref-Guarded,
  persist_prepared-Guarded, persist_team_summary-Guarded, persist_verified_witness-Guarded,
  release_lost-Guarded,
}

-- One access under the lock, with its arguments.
pub data Access : Type 0 where
  reserves : Association → Access
  advances : String → Access
  persists_prepared :
      (r : Association) (ref : SpoolRef) (d : Decision) (candidate_hash target : String) → Access
  loads_prepared :
      (r : Association) (ref : SpoolRef) (d : Decision) (candidate_hash : String) → Access
  persists_application : (r : Association) (ref : ApplicationRef) (id_hash : String) → Access
  persists_witness : (r : Association) (witness : List Witness) → Access
  persists_team : (r : Association) (summary : TeamResult) → Access
  commits : Association → Access
  expires : (now : ℕ) (r : Association) → Access
  marks_cleanup releases_lost finishes_lost finishes_committed : Association → Access

-- The record that the caller read before.
unfoldable pub earlier : Access → Option Association
earlier (reserves a) = none
earlier (advances id) = none
earlier (persists_prepared r ref d candidate_hash target) = some r
earlier (loads_prepared r ref d candidate_hash) = some r
earlier (persists_application r ref id_hash) = some r
earlier (persists_witness r witness) = some r
earlier (persists_team r summary) = some r
earlier (commits r) = some r
earlier (expires now r) = some r
earlier (marks_cleanup r) = some r
earlier (releases_lost r) = some r
earlier (finishes_lost r) = some r
earlier (finishes_committed r) = some r

-- A record is among those that were read.
abbrev pub Among : Association → List Association → Type 0
Among r [] = ⊥
Among r (x ∷ xs) = (x ≡ r) ⊎ Among r xs

abbrev pub Seen : Option Association → List Association → Type 0
Seen none seen = Unit
Seen (some r) seen = Among r seen

module _ (env : StoreEnv) (digests : Digests) where
  unfoldable pub writes_of : Access → Files → List Write
  writes_of (reserves a) f = (reserve env a f).0
  writes_of (advances id) f = (advance_cursor env id f).0
  writes_of (persists_prepared r ref d candidate_hash target) f =
      (persist_prepared env digests r ref d candidate_hash target f).0
  writes_of (loads_prepared r ref d candidate_hash) f =
      (load_prepared env digests r ref d candidate_hash f).0
  writes_of (persists_application r ref id_hash) f =
      (persist_application_ref env digests r ref id_hash f).0
  writes_of (persists_witness r witness) f = (persist_verified_witness env digests r witness f).0
  writes_of (persists_team r summary) f = (persist_team_summary env digests r summary f).0
  writes_of (commits r) f = (commit_record env digests r f).0
  writes_of (expires now r) f = (expire_record env digests now r f).0
  writes_of (marks_cleanup r) f = (mark_cleanup env digests r f).0
  writes_of (releases_lost r) f = (release_lost env digests r f).0
  writes_of (finishes_lost r) f = (finish_lost env digests r f).0
  writes_of (finishes_committed r) f = (finish_committed env digests r f).0

  -- The files and the records that callers have read: a record on file is read, or an access makes the
  -- first `n` of its writes, all of them or, in a crash, fewer.
  pub data Step : Files → List Association → Files → List Association → Type 0 where
    looks :
        {f : Files} {seen : List Association} (a : Association)
        → lookup a.intent.record_id f.records ≡ some (holds a)
        → Step f seen f (a ∷ seen)
    acts :
        {f : Files} {seen : List Association} (x : Access) (n : ℕ)
        → Seen (earlier x) seen
        → Step f seen (apply_all (take n (writes_of x f)) f) seen

  pub data Steps : Files → List Association → Files → List Association → Type 0 where
    done : {f : Files} {seen : List Association} → Steps f seen f seen
    goes_on :
        {f g h : Files} {seen seen' seen'' : List Association}
        → Steps f seen g seen'
        → Step g seen' h seen''
        → Steps f seen h seen''

  pub access-Guarded :
      (x : Access) (f : Files)
      → ((r : Association) → earlier x ≡ some r → Before r f)
      → Guarded f (writes_of x f)
  unfolding writes_of earlier
  access-Guarded (reserves a) f h = reserve-Guarded env a f
  access-Guarded (advances id) f h = advance-Guarded env id f
  access-Guarded (persists_prepared r ref d candidate_hash target) f h =
      persist_prepared-Guarded env digests r ref d candidate_hash target f (h r refl)
  access-Guarded (loads_prepared r ref d candidate_hash) f h =
      load_prepared-Guarded env digests r ref d candidate_hash f (h r refl)
  access-Guarded (persists_application r ref id_hash) f h =
      persist_application_ref-Guarded env digests r ref id_hash f
  access-Guarded (persists_witness r witness) f h =
      persist_verified_witness-Guarded env digests r witness f (h r refl)
  access-Guarded (persists_team r summary) f h =
      persist_team_summary-Guarded env digests r summary f
  access-Guarded (commits r) f h = commit_record-Guarded env digests r f
  access-Guarded (expires now r) f h = expire_record-Guarded env digests now r f
  access-Guarded (marks_cleanup r) f h = mark_cleanup-Guarded env digests r f
  access-Guarded (releases_lost r) f h = release_lost-Guarded env digests r f
  access-Guarded (finishes_lost r) f h = finish_lost-Guarded env digests r f
  access-Guarded (finishes_committed r) f h = finish_committed-Guarded env digests r f
