-- ===== src/Queue/Run.antt =====
-- The operations of src/ei/queue.py as a whole: each is a sequence of accesses, between which other
-- processes make theirs.
use Prim.Native.String.{count}
use portable_external_intell.Prelude.{
  ℕ, String, ◌≡◌, refl, Bool, true, false, inl, inr, Option, none, some, List, Result, ok, err,
  Bool-cases, Option-cases, str_eq, seconds, ◌+◌, leb, ltb, ◌||◌,
}
use portable_external_intell.Queue.State.{QueueState, target_state, value}
use portable_external_intell.Queue.Item.{QueueItem, QueueError, SpoolRef, Env}
use portable_external_intell.Queue.Directory.{
  Store, advance, delete_body, read_item-advance, read_item-delete_body, read_item-files,
}
use portable_external_intell.Queue.Transition.{
  Field, payload, validated, finished, begin, settle_ref, get_ref, keep, clean_ref, then_clean,
  finish, move_to, transition_queue_item,
}
use portable_external_intell.Queue.Claim.{
  Scan, claimed, cleanup, exhausted, scan, settled_scan, after_cleanup, resume, claim_queue_item,
}
use portable_external_intell.Queue.Change.{Change, Change-IsWellFormed}
use portable_external_intell.Queue.Reads.{IsWellFormed}
use portable_external_intell.Queue.Steps.{begin-Change, settle-Change}
use portable_external_intell.Queue.Scan.{
  scan-Claimed, claim-Change, scan-cleanup_files, scan-exhausted_files,
}

-- Accesses, one after the other.
pub data Steps (env : Env) (s : Store) : Store → Type 0 where
  here : Steps env s s
  next : {t u : Store} → Steps env s t → Change env t u → Steps env s u

pub Steps-trans : {env : Env} {s t u : Store} → Steps env s t → Steps env t u → Steps env s u
Steps-trans p here = p
Steps-trans p (next q c) = next (Steps-trans p q) c

pub Steps-one : {env : Env} {s t : Store} → Change env s t → Steps env s t
Steps-one c = next here c

-- What the whole sequence keeps.
pub Steps-IsWellFormed :
    {env : Env} {s t : Store} → Steps env s t → IsWellFormed env s → IsWellFormed env t
Steps-IsWellFormed here w = w
Steps-IsWellFormed {env} (next {t = a} {u = b} q c) w =
    Change-IsWellFormed env a b c (Steps-IsWellFormed q w)

keep-Steps :
    (env : Env) (s : Store) (r : Result QueueError (QueueItem × Store))
    → ((u : QueueItem) (t : Store) → r ≡ ok (u, t) → Change env s t)
    → Steps env s (keep s r).1
keep-Steps env s (ok (u, t)) f = Steps-one (f u t refl)
keep-Steps env s (err e) f = here

delete-Change : (env : Env) (b : String) (s : Store) → Change env s (delete_body b s)
delete-Change env b s = Change.same (λ id. read_item-delete_body env b id s)

advance-Change : (env : Env) (p : String) (s : Store) → Change env s (advance p s)
advance-Change env p s = Change.same (λ id. read_item-advance env p id s)

module _ (env : Env) (others : Store → Store) (quiet : (u : Store) → Steps env u (others u)) where
  -- The body is deleted between two spells of the others, and its reference is settled.
  delete-Steps :
      (path : String) (field : Field) (ref : SpoolRef) (target : QueueState) (moment : ℕ)
      (updated : QueueItem) (s : Store)
      → let gone = others (delete_body ref.spool_id (others s)) in
        Steps env s (keep gone (settle_ref env path field ref target moment updated gone)).1
  delete-Steps path field ref target moment updated s =
      let gone = others (delete_body ref.spool_id (others s)) in
      Steps-trans
        (Steps-trans (next (quiet s) (delete-Change env ref.spool_id (others s)))
          (quiet (delete_body ref.spool_id (others s))))
        (keep-Steps env gone (settle_ref env path field ref target moment updated gone)
          (settle-Change env gone path field ref target moment updated))

  clean-Steps :
      (path : String) (field : Field) (target : QueueState) (moment : ℕ) (updated : QueueItem)
      (s : Store)
      → Steps env s (clean_ref env others path field target moment updated s).1
  unfolding clean_ref
  clean-Steps path field target moment updated s = elim (Option-cases (get_ref field updated)) [
    | inl absent ↦ rw (absent, clean_ref) here
    | inr (ref, there) ↦ elim (Bool-cases (env.delete_fails ref.spool_id)) [
      | inl fails ↦ rw (there, clean_ref) (rw fails (quiet s))
      | inr works ↦
          rw (there, clean_ref) (rw works (delete-Steps path field ref target moment updated s))
    ]
  ]

  then_clean-Steps :
      (path : String) (field : Field) (target : QueueState) (moment : ℕ)
      (r : Result QueueError QueueItem) (s : Store)
      → Steps env s (then_clean env others path field target moment (r, s)).1
  unfolding then_clean
  then_clean-Steps path field target moment (ok u) s = clean-Steps path field target moment u s
  then_clean-Steps path field target moment (err e) s = here

  finish-Steps :
      (path : String) (target : QueueState) (moment : ℕ) (r : Result QueueError QueueItem)
      (s : Store)
      → Steps env s (finish env others path target moment (r, s)).1
  unfolding finish
  finish-Steps path target moment r s = elim (Bool-cases (finished target)) [
    | inr on ↦ rw on here
    | inl over ↦ rw over (
        let (q, t) = then_clean env others path payload target moment (r, s) in
        Steps-trans (then_clean-Steps path payload target moment r s)
          (then_clean-Steps path validated target moment q t))
  ]

  move-Steps :
      (item : QueueItem) (target : Option QueueState) (moment : ℕ) (reason : Option String)
      (due : Option ℕ) (s : Store)
      → Steps env s (move_to env others item target moment reason due s).1
  unfolding move_to
  move-Steps item none moment reason due s = here
  move-Steps item (some target) moment reason due s =
      let r = begin env item target moment reason due s in
      Steps-trans (keep-Steps env s r (begin-Change env s item target moment reason due))
        (finish-Steps item.queue_id target moment (keep s r).0 (keep s r).1)

  -- A transition, its cleanup included, is a sequence of accesses, and so is a claim.
  pub transition-Steps :
      (item : QueueItem) (raw : String) (moment : ℕ) (reason : Option String) (due : Option ℕ)
      (s : Store)
      → Steps env s (transition_queue_item env others item raw moment reason due s).1
  unfolding transition_queue_item
  transition-Steps item raw moment reason due s =
      move-Steps item (target_state raw) moment reason due s

module _ (env : Env) (others : Store → Store) (quiet : (u : Store) → Steps env u (others u))
    (worker : String) (moment lease_seconds : ℕ) where
  settled-Steps :
      (attempted : Bool) (page : List String) (s : Store) (r : Scan)
      → scan env worker moment lease_seconds attempted page s ≡ r
      → Steps env s (settled_scan r).1
  unfolding settled_scan
  settled-Steps attempted page s (claimed i t) h = Steps-one (
      claim-Change env worker moment lease_seconds s i t
        (scan-Claimed env worker moment lease_seconds attempted page s s i t refl h))
  settled-Steps attempted page s (exhausted t) h = Steps-one (
      Change.same (λ id.
        read_item-files env id t s
          (scan-exhausted_files env worker moment lease_seconds attempted page s s t refl h)))
  settled-Steps attempted page s (cleanup i rest t) h = Steps-one (
      Change.same (λ id.
        read_item-files env id t s
          (scan-cleanup_files env worker moment lease_seconds attempted page s s i rest t refl
            h).1))

  after_cleanup-Steps :
      (i : QueueItem) (r : Result QueueError QueueItem) (s : Store)
      → Steps env s (after_cleanup i (r, s))
  unfolding after_cleanup
  after_cleanup-Steps i (ok j) s = Steps-one (advance-Change env i.queue_id s)
  after_cleanup-Steps i (err e) s = here

  resume-Steps :
      (page : List String) (s : Store) (r : Scan)
      → scan env worker moment lease_seconds false page s ≡ r
      → Steps env s (resume env others worker moment lease_seconds r).1
  unfolding resume
  resume-Steps page s (claimed i t) h = settled-Steps false page s (claimed i t) h
  resume-Steps page s (exhausted t) h = settled-Steps false page s (exhausted t) h
  resume-Steps page s (cleanup i rest t) h =
      let due = some (moment + seconds 300) in
      let out =
        transition_queue_item env others i (value i.state) moment i.last_error_code due
          (others t) in
      let u = after_cleanup i out in
      Steps-trans (settled-Steps false page s (cleanup i rest t) h) (
        Steps-trans (quiet t) (
          Steps-trans
            (transition-Steps env others quiet i (value i.state) moment i.last_error_code due
              (others t))
            (Steps-trans (after_cleanup-Steps i out.0 out.1) (
              Steps-trans (quiet u) (
                settled-Steps true rest (others u)
                  (scan env worker moment lease_seconds true rest (others u)) refl)))))

  pub claim-Steps :
      (page : List String) (s : Store)
      → Steps env s (claim_queue_item env others worker moment lease_seconds page s).1
  unfolding claim_queue_item
  claim-Steps page s = elim (Bool-cases (str_eq worker "" || ltb 120 (count worker))) [
    | inl bad ↦ rw bad here
    | inr good ↦ elim (Bool-cases (leb lease_seconds 0)) [
      | inl bad ↦ rw (good, bad) here
      | inr fine ↦
          rw (good, fine)
            (resume-Steps page s (scan env worker moment lease_seconds false page s) refl)
    ]
  ]
