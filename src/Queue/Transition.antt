-- ===== src/Queue/Transition.antt =====
-- `transition_queue_item` of src/ei/queue.py: the guarded write under the lock, and then the removal
-- of the bodies that a finished item still owns, each in accesses of its own. `others` is what other
-- processes do to the directory while the lock is not held.
use portable_external_intell.Prelude.{
  ℕ, ◌+◌, String, Bool, false, ◌&&◌, ◌||◌, Option, none, some, [], ◌∷◌, str_eq, leb, if◌then◌else◌,
  opt_eq, is_some, or_else, seconds, Result, ok, err, ◌>>=◌, ◌>>◌, guard,
}
use portable_external_intell.Queue.State.{
  QueueState, ready, in_progress, deferred, failed_retryable, failed_needs_attention, yes_curating,
  no_discarded, done, quarantined, state_eq, mem_state, allowed_transitions, target_state,
}
use portable_external_intell.Queue.Item.{
  SpoolRef, QueueItem, QueueError, Env, ref_eq, provider_preference_of, queue_transition_invalid,
  queue_idempotency_collision, queue_terminal_cleanup_binding_invalid, queue_state_unknown,
  spool_error, queue_id_invalid,
}
use portable_external_intell.Queue.Directory.{
  Store, read_item, store_item, delete_body, queue_id_ok,
}

abbrev pub finished : QueueState → Bool
finished s = mem_state s (no_discarded ∷ done ∷ [])

abbrev pub leased : QueueState → Bool
leased s = mem_state s (in_progress ∷ yes_curating ∷ [])

-- The payload is a pending capture whose time is over.
unfoldable pub expired_pending : QueueItem → ℕ → Bool
expired_pending i moment = elim i.payload_ref [
  | none ↦ false
  | some r ↦ str_eq r.purpose "pending" && leb r.expires_at moment
]

unfoldable pub expiry_of_quarantined : QueueItem → QueueState → Option String → ℕ → Bool
unfolding expired_pending
expiry_of_quarantined i target reason moment =
    state_eq i.state quarantined
    && state_eq target failed_needs_attention
    && opt_eq str_eq reason (some "PENDING_EXPIRED")
    && is_some i.capture_id
    && expired_pending i moment

-- The test that stands before the lock, and again under it.
unfoldable pub may_move : QueueItem → QueueState → Option String → ℕ → Bool
unfolding expiry_of_quarantined
may_move i target reason moment =
    state_eq target i.state
    || mem_state target (allowed_transitions i.state)
    || expiry_of_quarantined i target reason moment

abbrev pub has_refs : QueueItem → Bool
has_refs i = is_some i.payload_ref || is_some i.validated_result_ref

abbrev pub value_or : Option ℕ → ℕ → ℕ
value_or none d = d
value_or (some t) d = t

cleanup_due : QueueItem → ℕ → Option ℕ → Option ℕ
cleanup_due current moment next =
    if has_refs current
    then some (value_or (or_else next current.next_eligible_at) (moment + seconds 300))
    else none

next_due : QueueState → QueueItem → ℕ → Option ℕ → Option ℕ
unfolding cleanup_due
next_due target current moment next =
    if finished target
    then cleanup_due current moment next
    else if is_some next
    then next
    else if mem_state target (deferred ∷ failed_retryable ∷ ready ∷ [])
    then current.next_eligible_at
    else none

last_error : QueueState → QueueItem → Option String → Option String
last_error target current reason =
    if is_some reason
    then reason
    else if state_eq target current.state && finished target
    then current.last_error_code
    else none

-- The item that is written.
unfoldable pub moved : Env → QueueState → ℕ → Option String → Option ℕ → QueueItem → QueueItem
unfolding next_due last_error
moved env target moment reason next current = record current {
  state = target;
  provider_preference = provider_preference_of env (some current.provider_preference);
  next_eligible_at = next_due target current moment next;
  lease_owner = if leased target then current.lease_owner else none;
  lease_expires_at = if leased target then current.lease_expires_at else none;
  last_error_code = last_error target current reason;
}

-- Up to the release of the lock.
unfoldable pub begin :
    Env
    → QueueItem
    → QueueState
    → ℕ
    → Option String
    → Option ℕ
    → Store
    → Result QueueError (QueueItem × Store)
begin env item target moment reason next s = do
  guard (may_move item target reason moment) queue_transition_invalid
  guard (queue_id_ok item.queue_id) queue_id_invalid
  current ← read_item env item.queue_id s
  guard (str_eq current.idempotency_key item.idempotency_key) queue_idempotency_collision
  guard (may_move current target reason moment) queue_transition_invalid
  let updated = moved env target moment reason next current
  ok (updated, store_item updated s)

pub data Field : Type 0 where
  payload validated : Field

unfoldable pub get_ref : Field → QueueItem → Option SpoolRef
get_ref payload i = i.payload_ref
get_ref validated i = i.validated_result_ref

unfoldable pub other_ref : Field → QueueItem → Option SpoolRef
other_ref payload i = i.validated_result_ref
other_ref validated i = i.payload_ref

unfoldable pub clear_ref : Field → QueueItem → QueueItem
clear_ref payload i = record i { payload_ref = none }
clear_ref validated i = record i { validated_result_ref = none }

-- The item without the reference; a second reference leaves it due for cleanup once more.
unfoldable pub cleaned : Field → ℕ → QueueItem → QueueItem
unfolding other_ref clear_ref
cleaned field moment current = record (clear_ref field current) {
  next_eligible_at =
      if is_some (other_ref field current) then some (moment + seconds 300) else none;
}

-- Under the lock, after the body is gone.
unfoldable pub settle_ref :
    Env
    → String
    → Field
    → SpoolRef
    → QueueState
    → ℕ
    → QueueItem
    → Store
    → Result QueueError (QueueItem × Store)
unfolding get_ref cleaned
settle_ref env path field ref target moment updated s = do
  current ← read_item env path s
  guard (str_eq current.idempotency_key updated.idempotency_key && state_eq current.state target)
      queue_terminal_cleanup_binding_invalid
  elim (get_ref field current) [
    | none ↦ ok (current, s)
    | some saved ↦
        if ref_eq saved ref
        then ok (cleaned field moment current, store_item (cleaned field moment current) s)
        else err queue_terminal_cleanup_binding_invalid
  ]

-- What an operation that raises leaves behind is the state before the failing access.
abbrev pub keep : {A : Type 0} → Store → Result QueueError (A × Store) → Result QueueError A × Store
keep s (ok (a, t)) = (ok a, t)
keep s (err e) = (err e, s)

unfoldable pub clean_ref :
    Env
    → (Store → Store)
    → String
    → Field
    → QueueState
    → ℕ
    → QueueItem
    → Store
    → Result QueueError QueueItem × Store
unfolding get_ref
clean_ref env others path field target moment updated s = elim (get_ref field updated) [
  | none ↦ (ok updated, s)
  | some ref ↦
      if env.delete_fails ref.spool_id
      then (err spool_error, others s)
      else let gone = others (delete_body ref.spool_id (others s)) in
        keep gone (settle_ref env path field ref target moment updated gone)
]

unfoldable pub then_clean :
    Env
    → (Store → Store)
    → String
    → Field
    → QueueState
    → ℕ
    → Result QueueError QueueItem × Store
    → Result QueueError QueueItem × Store
then_clean env others path field target moment (ok updated, s) =
    clean_ref env others path field target moment updated s
then_clean env others path field target moment (err e, s) = (err e, s)

unfoldable pub finish :
    Env
    → (Store → Store)
    → String
    → QueueState
    → ℕ
    → Result QueueError QueueItem × Store
    → Result QueueError QueueItem × Store
unfolding then_clean
finish env others path target moment r =
    if finished target
    then then_clean env others path validated target moment
        (then_clean env others path payload target moment r)
    else r

unfoldable pub move_to :
    Env
    → (Store → Store)
    → QueueItem
    → Option QueueState
    → ℕ
    → Option String
    → Option ℕ
    → Store
    → Result QueueError QueueItem × Store
unfolding finish begin
move_to env others item none moment reason next s = (err queue_state_unknown, s)
move_to env others item (some target) moment reason next s =
    finish env others item.queue_id target moment
      (keep s (begin env item target moment reason next s))

unfoldable pub transition_queue_item :
    Env
    → (Store → Store)
    → QueueItem
    → String
    → ℕ
    → Option String
    → Option ℕ
    → Store
    → Result QueueError QueueItem × Store
unfolding move_to
transition_queue_item env others item raw moment reason next s =
    move_to env others item (target_state raw) moment reason next s
