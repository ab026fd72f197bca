-- ===== src/Queue/History.antt =====
-- What an item of src/ei/queue.py goes through, whatever the processes do to the directory.
use portable_external_intell.Prelude.{
  [], ℕ, String, ◌≡◌, refl, sym, ◌∙◌, ap, subst, Bool, true, false, Option, none, some, List,
  Result, ok, err, Bool-cases, inl, inr, ◌⊎◌, arith, if◌then◌else◌,
}
use portable_external_intell.Queue.State.{
  QueueState, quarantined, failed_needs_attention, state_eq, mem_state, allowed_transitions,
  target_state,
}
use portable_external_intell.Queue.Item.{QueueItem, QueueError, SpoolRef, Env}
use portable_external_intell.Queue.Directory.{Store, read_item, bodies-store_item, read_item_empty}
use portable_external_intell.Queue.Transition.{
  finished, leased, expired_pending, begin, may_move, moved, keep, finish, move_to,
  transition_queue_item,
}
use portable_external_intell.Queue.Claim.{claim_queue_item}
use portable_external_intell.Queue.Enqueue.{
  EventFields, Reservation, Outcome, enqueue_receipt, attach_validated_result,
}
use portable_external_intell.Queue.Reads.{IsWellFormed}
use portable_external_intell.Queue.Follows.{Follows}
use portable_external_intell.Queue.Change.{Change}
use portable_external_intell.Queue.Steps.{begin_inv, begin_reads}
use portable_external_intell.Queue.Run.{
  Steps, Steps-one, Steps-IsWellFormed, transition-Steps, claim-Steps,
}
use portable_external_intell.Queue.Additions.{enqueue-Change, attach-Change}

-- Accesses after each of which the file of `id` can be read, and what it then holds.
pub data Trace (env : Env) (id : String) (s : Store) (i : QueueItem)
    : Store → QueueItem → Type 0 where
  start : read_item env id s ≡ ok i → Trace env id s i s i
  step :
      {t u : Store} {j k : QueueItem}
      → Trace env id s i t j
      → Change env t u
      → read_item env id u ≡ ok k
      → Trace env id s i u k

-- The operations that change the directory, and the directory that each leaves.
pub data Operation (env : Env) (others : Store → Store) (s : Store) : Store → Type 0 where
  transition :
      (item : QueueItem) (raw : String) (moment : ℕ) (reason : Option String) (due : Option ℕ)
      → Operation env others s (transition_queue_item env others item raw moment reason due s).1
  claim :
      (worker : String) (moment lease_seconds : ℕ) (page : List String)
      → Operation env others s (claim_queue_item env others worker moment lease_seconds page s).1
  enqueue :
      (reservation : Option Reservation) (present : Bool) (outcome : Outcome) (f : EventFields)
      (body : Option SpoolRef) (preference : Option (List String)) (stage : String) (now : ℕ)
      (capture : Option String)
      → Operation env others s
          (enqueue_receipt env reservation present outcome f body preference stage now capture s).1
  attach :
      (item : QueueItem) (ref : SpoolRef) (u : QueueItem) (t : Store)
      → attach_validated_result env item ref s ≡ ok (u, t)
      → Operation env others s t

-- Directories that come from the empty one by operations, among accesses of other processes.
pub data Reach (env : Env) : Store → Type 0 where
  empty : Reach env (record { files = []; cursor = none; bodies = [] })
  run :
      {s t : Store} (others : Store → Store)
      → Reach env s
      → ((u : Store) → Steps env u (others u))
      → Operation env others s t
      → Reach env t

Operation-Steps :
    {env : Env} {others : Store → Store} {s t : Store}
    → ((u : Store) → Steps env u (others u))
    → Operation env others s t
    → Steps env s t
Operation-Steps {env} {others} {s} q (transition item raw moment reason due) =
    transition-Steps env others q item raw moment reason due s
Operation-Steps {env} {others} {s} q (claim worker moment lease_seconds page) =
    claim-Steps env others q worker moment lease_seconds page s
Operation-Steps {env} {others} {s} q
      (enqueue reservation present outcome f body preference stage now capture) =
    Steps-one (enqueue-Change env reservation present outcome s f body preference stage now capture)
Operation-Steps {env} {others} {s} q (attach item ref u t h) =
    Steps-one (attach-Change env item ref s u t h)

-- In every directory that the operations reach from the empty one, whatever accesses of other
-- processes come between theirs, each file that can be read holds an item of its own identifier, the
-- identifier is the tag of its event, key and host, and only an item that is being worked on has a
-- lease.
pub Reach-IsWellFormed : {env : Env} {s : Store} → Reach env s → IsWellFormed env s
Reach-IsWellFormed {env} empty = record { proper = λ id i r. absurd (read_item_empty env id r) }
Reach-IsWellFormed (run others r q o) =
    Steps-IsWellFormed (Operation-Steps q o) (Reach-IsWellFormed r)

keep-bodies :
    (s : Store) (r : Result QueueError (QueueItem × Store))
    → ((u : QueueItem) (t : Store) → r ≡ ok (u, t) → t.bodies ≡ s.bodies)
    → (keep s r).1.bodies ≡ s.bodies
keep-bodies s (ok (u, t)) f = f u t refl
keep-bodies s (err e) f = refl

begin-bodies :
    (env : Env) (item : QueueItem) (target : QueueState) (moment : ℕ) (reason : Option String)
    (due : Option ℕ) (s : Store)
    → (keep s (begin env item target moment reason due s)).1.bodies ≡ s.bodies
begin-bodies env item target moment reason due s =
    keep-bodies s (begin env item target moment reason due s) λ u t h.
      let (current, r) = begin_reads env s item target moment reason due u t h in
      let (_, _, e) = begin_inv env s item target moment reason due u current t r h in
      ap (λ k. k.bodies) e ∙ bodies-store_item u s

finish_open :
    (env : Env) (others : Store → Store) (path : String) (target : QueueState) (moment : ℕ)
    (r : Result QueueError QueueItem × Store)
    → finished target ≡ false
    → finish env others path target moment r ≡ r
unfolding finish
finish_open env others path target moment r h = rw h

finish_err :
    (env : Env) (others : Store → Store) (path : String) (target : QueueState) (moment : ℕ)
    (e : QueueError) (s : Store)
    → (finish env others path target moment (err e, s)).1 ≡ s
unfolding finish
finish_err env others path target moment e s = elim (Bool-cases (finished target)) [
  | inl over ↦ rw over
  | inr on ↦ rw on
]

-- A transition deletes a body only for a target that finishes the item, and only after the guarded
-- write of the finished state has succeeded.
pub transition-keeps-bodies :
    (env : Env) (others : Store → Store) (item : QueueItem) (raw : String) (target : QueueState)
    (moment : ℕ) (reason : Option String) (due : Option ℕ) (s : Store)
    → target_state raw ≡ some target
    → (finished target ≡ false)
      ⊎ ((e : QueueError) × (begin env item target moment reason due s ≡ err e))
    → (transition_queue_item env others item raw moment reason due s).1.bodies ≡ s.bodies
unfolding transition_queue_item
transition-keeps-bodies env others item raw target moment reason due s t (inl open_state) = rw t (
    unfold move_to in
    rw
      (finish_open env others item.queue_id target moment
        (keep s (begin env item target moment reason due s)) open_state)
      (begin-bodies env item target moment reason due s))
transition-keeps-bodies env others item raw target moment reason due s t (inr (e, refused)) = rw t (
    unfold move_to in
    rw refused (ap (λ k. k.bodies) (finish_err env others item.queue_id target moment e s)))

-- How a written item may differ in state from the item that it replaces.
pub record Allowed (old new : QueueItem) (moment : ℕ) : Type 0 where
  pub state :
      (new.state ≡ old.state)
      ⊎ (mem_state new.state (allowed_transitions old.state) ≡ true)
      ⊎ ((old.state ≡ quarantined)
          × (new.state ≡ failed_needs_attention)
          × (expired_pending old moment ≡ true))
  pub attempts : new.attempts ≡ old.attempts
  pub owner : new.lease_owner ≡ (if leased new.state then old.lease_owner else none)
  pub expiry : new.lease_expires_at ≡ (if leased new.state then old.lease_expires_at else none)

state_eq-eq : (s t : QueueState) → state_eq s t ≡ true → s ≡ t
state_eq-eq s t h = ground arith

allowed_state :
    (i : QueueItem) (target : QueueState) (moment : ℕ) (reason : Option String)
    → may_move i target reason moment ≡ true
    → (target ≡ i.state)
      ⊎ (mem_state target (allowed_transitions i.state) ≡ true)
      ⊎ ((i.state ≡ quarantined)
          × (target ≡ failed_needs_attention)
          × (expired_pending i moment ≡ true))
unfolding may_move
allowed_state i target moment reason h = ground (
  arith,
  state_eq-eq target i.state,
  state_eq-eq i.state quarantined,
  state_eq-eq target failed_needs_attention,
)

moved-Allowed :
    (env : Env) (i : QueueItem) (target : QueueState) (moment : ℕ) (reason : Option String)
    (due : Option ℕ)
    → may_move i target reason moment ≡ true
    → Allowed i (moved env target moment reason due i) moment
unfolding moved
moved-Allowed env i target moment reason due h = record {
  state = allowed_state i target moment reason h;
  attempts = refl;
  owner = refl;
  expiry = refl;
}

-- The guarded write of a transition changes the state only along the table, with the one exception
-- of a quarantined capture whose time is over; it counts no attempt, and it keeps the lease of the
-- item that it read only for work in progress.
pub transition-Allowed :
    (env : Env) (item : QueueItem) (target : QueueState) (moment : ℕ) (reason : Option String)
    (due : Option ℕ) (s : Store) (current u : QueueItem) (t : Store)
    → read_item env item.queue_id s ≡ ok current
    → begin env item target moment reason due s ≡ ok (u, t)
    → Allowed current u moment
transition-Allowed env item target moment reason due s current u t r h =
    let (may, e, _) = begin_inv env s item target moment reason due u current t r h in
    subst (λ k. Allowed current k moment) (sym e)
      (moved-Allowed env current target moment reason due may)
