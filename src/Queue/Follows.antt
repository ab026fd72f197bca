-- ===== src/Queue/Follows.antt =====
-- How the item that an operation writes follows from the item that it read.
use portable_external_intell.Prelude.{ℕ, ◌≤◌, String, ◌≡◌, refl, true, Option, arith}
use portable_external_intell.Queue.State.{QueueState, allowed_transitions}
use portable_external_intell.Queue.Item.{QueueItem, Env, settled}
use portable_external_intell.Queue.Transition.{
  Field, payload, validated, finished, may_move, moved, cleaned,
}
use portable_external_intell.Queue.Claim.{claimable, lease}
use portable_external_intell.Queue.Reads.{IsProper}

-- The identity of an item stays, its attempts only grow, and a finished item stays as it ended.
pub record Follows (old new : QueueItem) : Type 0 where
  pub queue_id : new.queue_id ≡ old.queue_id
  pub event_id : new.event_id ≡ old.event_id
  pub idempotency_key : new.idempotency_key ≡ old.idempotency_key
  pub source_host_id : new.source_host_id ≡ old.source_host_id
  pub attempts : old.attempts ≤ new.attempts
  pub final : finished old.state ≡ true → new.state ≡ old.state

pub Follows-refl : (i : QueueItem) → Follows i i
Follows-refl i = ground arith

pub Follows-trans : (i j k : QueueItem) → Follows i j → Follows j k → Follows i k
Follows-trans i j k p q = ground arith

pub Follows-settled : (i j : QueueItem) → Follows i j → Follows i (settled j)
Follows-settled i j f = ground arith

module _ (env : Env) (target : QueueState) (moment : ℕ) (reason : Option String) (next : Option ℕ)
    (i : QueueItem) where
  may_move-finished :
      may_move i target reason moment ≡ true → finished i.state ≡ true → target ≡ i.state
  unfolding may_move allowed_transitions
  may_move-finished h f = ground arith

  pub moved-Follows :
      may_move i target reason moment ≡ true → Follows i (moved env target moment reason next i)
  unfolding moved
  moved-Follows h = record {
    queue_id = refl;
    event_id = refl;
    idempotency_key = refl;
    source_host_id = refl;
    attempts = omega arith;
    final = may_move-finished h;
  }

  pub moved-IsProper :
      (id : String) → IsProper env id i → IsProper env id (moved env target moment reason next i)
  unfolding moved
  moved-IsProper id p = ground arith

module _ (env : Env) (i : QueueItem) where
  pub cleaned-Follows : (field : Field) (moment : ℕ) → Follows i (cleaned field moment i)
  unfolding cleaned
  cleaned-Follows payload moment = ground arith
  cleaned-Follows validated moment = ground arith

  pub cleaned-IsProper :
      (field : Field) (moment : ℕ) (id : String)
      → IsProper env id i
      → IsProper env id (cleaned field moment i)
  unfolding cleaned
  cleaned-IsProper payload moment id p = ground arith
  cleaned-IsProper validated moment id p = ground arith

  pub lease-Follows :
      (worker : String) (moment lease_seconds : ℕ)
      → claimable i moment ≡ true
      → Follows i (lease env worker moment lease_seconds i)
  unfolding lease claimable
  lease-Follows worker moment lease_seconds h = ground arith

  pub lease-IsProper :
      (worker : String) (moment lease_seconds : ℕ) (id : String)
      → IsProper env id i
      → IsProper env id (lease env worker moment lease_seconds i)
  unfolding lease
  lease-IsProper worker moment lease_seconds id p = ground arith
