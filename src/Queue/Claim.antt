-- ===== src/Queue/Claim.antt =====
-- `claim_queue_item` of src/ei/queue.py. The page of identifiers is
-- that of the catalog, in its order. A finished item that still owns a body is cleaned up once in a
-- scan, outside the lock, and the scan goes on behind it.
use Prim.Native.String.{count}
use portable_external_intell.Prelude.{
  ℕ, ◌+◌, String, Bool, true, false, ◌&&◌, ◌||◌, not, Option, none, some, List, [], ◌∷◌, str_eq,
  leb, ltb, if◌then◌else◌, seconds, Result, ok, err,
}
use portable_external_intell.Queue.State.{
  QueueState, ready, in_progress, deferred, failed_retryable, mem_state, terminal, value,
}
use portable_external_intell.Queue.Item.{
  QueueItem, QueueError, Env, provider_preference_of, queue_worker_invalid, queue_lease_invalid,
}
use portable_external_intell.Queue.Directory.{Store, read_item, store_item, advance}
use portable_external_intell.Queue.Transition.{
  finished, leased, expired_pending, has_refs, transition_queue_item,
}

-- `eligible is None or eligible <= moment`
abbrev pub due_by : Option ℕ → ℕ → Bool
due_by none moment = true
due_by (some t) moment = leb t moment

-- A finished item that the scan may clean up now.
unfoldable pub needs_cleanup : QueueItem → ℕ → Bool
needs_cleanup i moment = finished i.state && has_refs i && due_by i.next_eligible_at moment

-- `lease_expiry is not None and lease_expiry <= moment`
abbrev pub lease_over : QueueItem → ℕ → Bool
lease_over i moment = elim i.lease_expires_at [ none ↦ false | some t ↦ leb t moment ]

-- An item of which the lease is over is taken back.
unfoldable pub reclaimed : QueueItem → QueueItem
reclaimed i =
    if leased i.state
    then record i {
      state = ready;
      lease_owner = none;
      lease_expires_at = none;
      last_error_code = some "STALE_LEASE_RECLAIMED";
    }
    else i

abbrev pub waiting : QueueState → Bool
waiting s = mem_state s (ready ∷ deferred ∷ failed_retryable ∷ [])

-- Every test that stands between an item that was read and the lease on it.
unfoldable pub claimable : QueueItem → ℕ → Bool
unfolding expired_pending reclaimed
claimable i moment =
    not (mem_state i.state terminal)
    && not (expired_pending i moment)
    && (not (leased i.state) || lease_over i moment)
    && waiting (reclaimed i).state
    && due_by i.next_eligible_at moment

-- The item with a new lease: the one place where an attempt is counted.
unfoldable pub lease : Env → String → ℕ → ℕ → QueueItem → QueueItem
unfolding reclaimed
lease env worker moment lease_seconds i = record (reclaimed i) {
  state = in_progress;
  attempts = i.attempts + 1;
  provider_preference = provider_preference_of env (some i.provider_preference);
  lease_owner = some worker;
  lease_expires_at = some (moment + seconds lease_seconds);
  last_error_code = none;
}

pub data Scan : Type 0 where
  claimed : QueueItem → Store → Scan
  cleanup : QueueItem → List String → Store → Scan
  exhausted : Store → Scan

module _ (env : Env) (worker : String) (moment lease_seconds : ℕ) where
  -- What the loop does with an item, before it goes on with the rest of the page.
  scan_item : Bool → String → QueueItem → List String → Store → (Store → Scan) → Scan
  unfolding needs_cleanup claimable lease
  scan_item attempted path i rest s next =
      if not attempted && needs_cleanup i moment
      then cleanup i rest s
      else if claimable i moment
      then claimed (lease env worker moment lease_seconds i)
          (advance path (store_item (lease env worker moment lease_seconds i) s))
      else next (advance path s)

  scan_read :
      Bool → String → Result QueueError QueueItem → List String → Store → (Store → Scan) → Scan
  unfolding scan_item
  scan_read attempted path (ok i) rest s next = scan_item attempted path i rest s next
  scan_read attempted path (err e) rest s next = next (advance path s)

  -- The `for` loop over the page.
  unfoldable pub scan : Bool → List String → Store → Scan
  unfolding scan_read
  scan attempted [] s = exhausted s
  scan attempted (path ∷ rest) s =
      scan_read attempted path (read_item env path s) rest s (λ t. scan attempted rest t)

pub data Claim : Type 0 where
  some_item : QueueItem → Claim
  no_item : Claim

-- The second round cleans nothing up, so it ends with an item or with none.
unfoldable pub settled_scan : Scan → Claim × Store
settled_scan (claimed i s) = (some_item i, s)
settled_scan (cleanup i rest s) = (no_item, s)
settled_scan (exhausted s) = (no_item, s)

-- An error of the cleanup leaves the position; the item stays finished with its references.
unfoldable pub after_cleanup : QueueItem → Result QueueError QueueItem × Store → Store
after_cleanup i (ok j, s) = advance i.queue_id s
after_cleanup i (err e, s) = s

module _ (env : Env) (others : Store → Store) (worker : String) (moment lease_seconds : ℕ) where
  -- The rounds of the `while` loop.
  unfoldable pub resume : Scan → Claim × Store
  unfolding settled_scan after_cleanup scan transition_queue_item
  resume (claimed i s) = (some_item i, s)
  resume (exhausted s) = (no_item, s)
  resume (cleanup i rest s) =
      let t = after_cleanup i (
        transition_queue_item env others i (value i.state) moment i.last_error_code
          (some (moment + seconds 300)) (others s)) in
      settled_scan (scan env worker moment lease_seconds true rest (others t))

  unfoldable pub claim_queue_item : List String → Store → Result QueueError Claim × Store
  unfolding resume
  claim_queue_item page s =
      if str_eq worker "" || ltb 120 (count worker)
      then (err queue_worker_invalid, s)
      else if leb lease_seconds 0
      then (err queue_lease_invalid, s)
      else let (c, t) = resume (scan env worker moment lease_seconds false page s) in (ok c, t)
