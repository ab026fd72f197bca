-- ===== src/Queue/Scan.antt =====
-- What the scan of `claim_queue_item` (src/ei/queue.py) finds in a page of the directory.
use portable_external_intell.Prelude.{
  ℕ, ◌+◌, seconds, String, ◌≡◌, ◌≢◌, refl, sym, ◌∙◌, ap, subst, Bool, true, false, not, ◌&&◌, inl,
  inr, some, List, [], ◌∷◌, ok, Result-cases, Bool-cases, arith, if◌then◌else◌,
}
use portable_external_intell.Queue.State.{in_progress}
use portable_external_intell.Queue.Item.{QueueItem, Env}
use portable_external_intell.Queue.Directory.{
  Store, read_item, store_item, advance, read_item-files, files-store_item, files-advance,
}
use portable_external_intell.Queue.Transition.{leased}
use portable_external_intell.Queue.Claim.{
  claimed, cleanup, exhausted, scan, lease, claimable, needs_cleanup, lease_over,
}
use portable_external_intell.Queue.Reads.{IsProper, IsWellFormed}
use portable_external_intell.Queue.Follows.{Follows, lease-Follows, lease-IsProper}
use portable_external_intell.Queue.Change.{Change, rewrote, one_read}

-- A scan that ends in a claim: the item of a file of the directory was claimable, and its lease is
-- all that was written.
pub record Claimed (env : Env) (worker : String) (moment lease_seconds : ℕ) (s : Store)
    (i : QueueItem) (t : Store) : Type 0 where
  pub path : String
  pub old : QueueItem
  pub found : read_item env path s ≡ ok old
  pub may_claim : claimable old moment ≡ true
  pub leased_as : i ≡ lease env worker moment lease_seconds old
  pub files : t.files ≡ (store_item i s).files

lease-queue_id :
    (env : Env) (worker : String) (moment lease_seconds : ℕ) (i : QueueItem)
    → (lease env worker moment lease_seconds i).queue_id ≡ i.queue_id
unfolding lease
lease-queue_id env worker moment lease_seconds i = ground arith

-- The lease that a claim writes, and until when it runs.
pub lease_until :
    (env : Env) (worker : String) (moment lease_seconds : ℕ) (i : QueueItem)
    → ((lease env worker moment lease_seconds i).state ≡ in_progress)
      × ((lease env worker moment lease_seconds i).lease_owner ≡ some worker)
      × ((lease env worker moment lease_seconds i).lease_expires_at
          ≡ some (moment + seconds lease_seconds))
unfolding lease
lease_until env worker moment lease_seconds i = (refl, refl, refl)

not_claimable :
    (i : QueueItem) (moment : ℕ)
    → leased i.state ≡ true
    → lease_over i moment ≡ false
    → claimable i moment ≡ false
unfolding claimable
not_claimable i moment busy runs = ground arith

exhausted-injective : {s t : Store} → exhausted s ≡ exhausted t → s ≡ t
exhausted-injective h = cc

cleanup_here :
    (moment : ℕ) (attempted : Bool) (j i : QueueItem) (page rest : List String) (s s₀ t : Store)
    → s.files ≡ s₀.files
    → (not attempted && needs_cleanup j moment) ≡ true
    → cleanup j page s ≡ cleanup i rest t
    → (needs_cleanup i moment ≡ true) × (t.files ≡ s₀.files)
cleanup_here moment attempted j i page rest s s₀ t e tidy h =
    let same_item : j ≡ i = cc in
    let same_store : s ≡ t = cc in (rw (← same_item) (ground arith), rw (← same_store) e)

module _ (env : Env) (worker : String) (moment lease_seconds : ℕ) where
  claimed_here :
      (path : String) (s s₀ : Store) (j i : QueueItem) (t : Store)
      → s.files ≡ s₀.files
      → read_item env path s ≡ ok j
      → claimable j moment ≡ true
      → claimed
          (lease env worker moment lease_seconds j)
          (advance path (store_item (lease env worker moment lease_seconds j) s))
        ≡ claimed i t
      → Claimed env worker moment lease_seconds s₀ i t
  claimed_here path s s₀ j i t e r may h =
      let new = lease env worker moment lease_seconds j in
      let same_item : new ≡ i = cc in
      let same_store : advance path (store_item new s) ≡ t = cc in
      record {
        path = path;
        old = j;
        found = sym (read_item-files env path s s₀ e) ∙ r;
        may_claim = may;
        leased_as = sym same_item;
        files =
            sym (ap (λ k. k.files) same_store)
            ∙ files-advance path (store_item new s)
            ∙ files-store_item new s s₀ e
            ∙ ap (λ k. (store_item k s₀).files) same_item;
      }

  -- The three ways in which the loop treats the first file of a page.
  pub scan_err :
      (attempted : Bool) (path : String) (rest : List String) (s : Store)
      → ((i : QueueItem) → read_item env path s ≢ ok i)
      → scan env worker moment lease_seconds attempted (path ∷ rest) s
        ≡ scan env worker moment lease_seconds attempted rest (advance path s)
  unfolding scan
  scan_err attempted path rest s bad = elim (Result-cases (read_item env path s)) [
    | inl (i, r) ↦ absurd (bad i r)
    | inr (e, r) ↦ rw r
  ]

  pub scan_ok :
      (attempted : Bool) (path : String) (rest : List String) (s : Store) (i : QueueItem)
      → read_item env path s ≡ ok i
      → scan env worker moment lease_seconds attempted (path ∷ rest) s ≡ (
          if not attempted && needs_cleanup i moment
          then cleanup i rest s
          else if claimable i moment
          then claimed
              (lease env worker moment lease_seconds i)
              (advance path (store_item (lease env worker moment lease_seconds i) s))
          else scan env worker moment lease_seconds attempted rest (advance path s))
  unfolding scan
  scan_ok attempted path rest s i r = rw r

  -- A scan that ends in a claim took a file that was claimable, and wrote its lease.
  pub scan-Claimed :
      (attempted : Bool) (page : List String) (s s₀ : Store) (i : QueueItem) (t : Store)
      → s.files ≡ s₀.files
      → scan env worker moment lease_seconds attempted page s ≡ claimed i t
      → Claimed env worker moment lease_seconds s₀ i t
  unfolding scan
  scan-Claimed attempted [] s s₀ i t e h = absurd (cc)
  scan-Claimed attempted (path ∷ rest) s s₀ i t e h =
      let again =
        λ (k : scan env worker moment lease_seconds attempted rest (advance path s) ≡ claimed i t).
          scan-Claimed attempted rest (advance path s) s₀ i t (files-advance path s ∙ e) k in
      elim (Result-cases (read_item env path s)) [
        | inr (x, r) ↦ again (sym (scan_err attempted path rest s (λ j q. cc)) ∙ h)
        | inl (j, r) ↦
            let h' = sym (scan_ok attempted path rest s j r) ∙ h in
            elim (Bool-cases (not attempted && needs_cleanup j moment)) [
              | inl tidy ↦ absurd (cc (rw tidy at h'))
              | inr untidy ↦ elim (Bool-cases (claimable j moment)) [
                | inr idle ↦ again (rw (untidy, idle) at h')
                | inl may ↦ claimed_here path s s₀ j i t e r may (rw (untidy, may) at h')
              ]
            ]
      ]

module _ (env : Env) (worker : String) (moment lease_seconds : ℕ) where
  -- A scan that stops for a cleanup has read an item that needs it, and has written nothing.
  pub scan-cleanup_files :
      (attempted : Bool) (page : List String) (s s₀ : Store) (i : QueueItem) (rest : List String)
      (t : Store)
      → s.files ≡ s₀.files
      → scan env worker moment lease_seconds attempted page s ≡ cleanup i rest t
      → (needs_cleanup i moment ≡ true) × (t.files ≡ s₀.files)
  unfolding scan
  scan-cleanup_files attempted [] s s₀ i rest t e h = absurd (cc)
  scan-cleanup_files attempted (path ∷ page) s s₀ i rest t e h =
      let again =
        λ (k : scan env worker moment lease_seconds attempted page (advance path s)
            ≡ cleanup i rest t).
          scan-cleanup_files attempted page (advance path s) s₀ i rest t (files-advance path s ∙ e)
            k in
      elim (Result-cases (read_item env path s)) [
        | inr (x, r) ↦
            again
              (sym (scan_err env worker moment lease_seconds attempted path page s (λ j q. cc)) ∙ h)
        | inl (j, r) ↦
            let h' = sym (scan_ok env worker moment lease_seconds attempted path page s j r) ∙ h in
            elim (Bool-cases (not attempted && needs_cleanup j moment)) [
              | inr untidy ↦ elim (Bool-cases (claimable j moment)) [
                | inr idle ↦ again (rw (untidy, idle) at h')
                | inl may ↦ absurd (cc (rw (untidy, may) at h'))
              ]
              | inl tidy ↦ cleanup_here moment attempted j i page rest s s₀ t e tidy (rw tidy at h')
            ]
      ]

  -- A scan that finds nothing has written nothing.
  pub scan-exhausted_files :
      (attempted : Bool) (page : List String) (s s₀ : Store) (t : Store)
      → s.files ≡ s₀.files
      → scan env worker moment lease_seconds attempted page s ≡ exhausted t
      → t.files ≡ s₀.files
  unfolding scan
  scan-exhausted_files attempted [] s s₀ t e h =
      (ap (λ k. k.files) (sym (exhausted-injective h))) ∙ e
  scan-exhausted_files attempted (path ∷ page) s s₀ t e h =
      let again =
        λ (k : scan env worker moment lease_seconds attempted page (advance path s) ≡ exhausted t).
          scan-exhausted_files attempted page (advance path s) s₀ t (files-advance path s ∙ e) k in
      elim (Result-cases (read_item env path s)) [
        | inr (x, r) ↦
            again
              (sym (scan_err env worker moment lease_seconds attempted path page s (λ j q. cc)) ∙ h)
        | inl (j, r) ↦
            let h' = sym (scan_ok env worker moment lease_seconds attempted path page s j r) ∙ h in
            elim (Bool-cases (not attempted && needs_cleanup j moment)) [
              | inr untidy ↦ elim (Bool-cases (claimable j moment)) [
                | inr idle ↦ again (rw (untidy, idle) at h')
                | inl may ↦ absurd (cc (rw (untidy, may) at h'))
              ]
              | inl tidy ↦ absurd (cc (rw tidy at h'))
            ]
      ]

-- No claim takes over an item whose lease still runs.
pub claim-ne-leased :
    (env : Env) (worker : String) (moment lease_seconds : ℕ) (s : Store) (i : QueueItem) (t : Store)
    (id : String) (j : QueueItem)
    → IsWellFormed env s
    → Claimed env worker moment lease_seconds s i t
    → read_item env id s ≡ ok j
    → leased j.state ≡ true
    → lease_over j moment ≡ false
    → i.queue_id ≢ id
claim-ne-leased env worker moment lease_seconds s i t id j w c r busy runs e =
    let p = w.proper c.path c.old c.found in
    let named : c.path ≡ id =
      sym p.named
      ∙ sym
          (ap (λ k. k.queue_id) c.leased_as ∙ lease-queue_id env worker moment lease_seconds c.old)
      ∙ e in
    let one : c.old ≡ j = one_read _ (subst (λ k. read_item env k s ≡ ok c.old) named c.found) r in
    cc (subst (λ k. claimable k moment ≡ true) one c.may_claim, not_claimable j moment busy runs)

pub claim-Change :
    (env : Env) (worker : String) (moment lease_seconds : ℕ) (s : Store) (i : QueueItem) (t : Store)
    → Claimed env worker moment lease_seconds s i t
    → Change env s t
claim-Change env worker moment lease_seconds s i t c =
    rewrote i
      (record {
        at = c.path;
        old = c.old;
        found = c.found;
        follows =
            subst (Follows c.old) (sym c.leased_as)
              (lease-Follows env c.old worker moment lease_seconds c.may_claim);
        keeps = λ id p.
            subst (IsProper env id) (sym c.leased_as)
              (lease-IsProper env c.old worker moment lease_seconds id p);
      })
      (λ id. read_item-files env id t (store_item i s) c.files)
