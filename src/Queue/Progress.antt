-- ===== src/Queue/Progress.antt =====
-- A claim of src/ei/queue.py passes over no work that it could take.
use Prim.Native.String.{count}
use portable_external_intell.Prelude.{
  ℕ, String, ◌≡◌, refl, sym, ◌∙◌, Bool, false, ◌||◌, inl, inr, List, [], ◌∷◌, All, Result, ok,
  Result-cases, Bool-cases, str_eq, ltb, leb,
}
use portable_external_intell.Queue.Item.{QueueItem, QueueError, Env}
use portable_external_intell.Queue.Directory.{
  Store, read_item, advance, read_item-files, files-advance,
}
use portable_external_intell.Queue.Claim.{
  Scan, claimed, cleanup, exhausted, scan, claimable, needs_cleanup, Claim, no_item, resume,
  claim_queue_item,
}
use portable_external_intell.Queue.Scan.{scan_err, scan_ok}

-- No readable file of the page has the property.
abbrev pub NoneOf : Env → (QueueItem → Bool) → Store → List String → Type 0
NoneOf env p s page = All (λ id. (i : QueueItem) → read_item env id s ≡ ok i → p i ≡ false) page

ok_answer : {a b : Claim} → ◌≡◌ {A = Result QueueError Claim} (ok a) (ok b) → a ≡ b
ok_answer h = cc

one_read : (r : Result QueueError QueueItem) {a b : QueueItem} → r ≡ ok a → r ≡ ok b → a ≡ b
one_read r h k = cc

module _ (env : Env) (worker : String) (moment lease_seconds : ℕ) where
  scan-idle :
      (page : List String) (s s₀ t : Store)
      → s.files ≡ s₀.files
      → scan env worker moment lease_seconds false page s ≡ exhausted t
      → NoneOf env (λ i. claimable i moment) s₀ page
  scan-idle [] s s₀ t e h = tt
  scan-idle (path ∷ page) s s₀ t e h =
      let again =
        λ (k : scan env worker moment lease_seconds false page (advance path s) ≡ exhausted t).
          scan-idle page (advance path s) s₀ t (files-advance path s ∙ e) k in
      elim (Result-cases (read_item env path s)) [
        | inr (x, r) ↦ (
          λ i q. absurd (cc (r, q, read_item-files env path s s₀ e)),
          again (sym (scan_err env worker moment lease_seconds false path page s (λ j q. cc)) ∙ h),
        )
        | inl (j, r) ↦
            let h' = sym (scan_ok env worker moment lease_seconds false path page s j r) ∙ h in
            elim (Bool-cases (needs_cleanup j moment)) [
              | inl tidy ↦ absurd (cc (rw tidy at h'))
              | inr untidy ↦ elim (Bool-cases (claimable j moment)) [
                | inl may ↦ absurd (cc (rw (untidy, may) at h'))
                | inr idle ↦ (
                  λ i q. cc (idle, one_read _ (r) (read_item-files env path s s₀ e ∙ q)),
                  again (rw (untidy, idle) at h'),
                )
              ]
            ]
      ]

  tidy_scan :
      (page : List String) (s s₀ : Store) (i : QueueItem) (rest : List String) (t : Store)
      → s.files ≡ s₀.files
      → NoneOf env (λ i. needs_cleanup i moment) s₀ page
      → scan env worker moment lease_seconds false page s ≡ cleanup i rest t
      → ⊥
  unfolding scan
  tidy_scan [] s s₀ i rest t e n h = cc
  tidy_scan (path ∷ page) s s₀ i rest t e n h =
      let again =
        λ (k : scan env worker moment lease_seconds false page (advance path s) ≡ cleanup i rest t).
          tidy_scan page (advance path s) s₀ i rest t (files-advance path s ∙ e) n.1 k in
      elim (Result-cases (read_item env path s)) [
        | inr (x, r) ↦
            again (sym (scan_err env worker moment lease_seconds false path page s (λ j q. cc)) ∙ h)
        | inl (j, r) ↦
            let h' = sym (scan_ok env worker moment lease_seconds false path page s j r) ∙ h in
            let untidy = n.0 j (sym (read_item-files env path s s₀ e) ∙ r) in
            elim (Bool-cases (claimable j moment)) [
              | inl may ↦ cc (rw (untidy, may) at h')
              | inr idle ↦ again (rw (untidy, idle) at h')
            ]
      ]

module _ (env : Env) (others : Store → Store) (worker : String) (moment lease_seconds : ℕ) where
  resume-idle :
      (page : List String) (s : Store) (r : Scan)
      → scan env worker moment lease_seconds false page s ≡ r
      → NoneOf env (λ i. needs_cleanup i moment) s page
      → (resume env others worker moment lease_seconds r).0 ≡ no_item
      → NoneOf env (λ i. claimable i moment) s page
  unfolding resume
  resume-idle page s (claimed i t) h n k = absurd (cc)
  resume-idle page s (exhausted t) h n k =
      scan-idle env worker moment lease_seconds page s s t refl h
  resume-idle page s (cleanup i rest t) h n k =
      absurd (tidy_scan env worker moment lease_seconds page s s i rest t refl n h)

  -- If no finished item of the page still owns a body that is due for removal, a claim answers that
  -- there is no item only where no readable item of the page may be claimed.
  pub no_item-NoneOf :
      (page : List String) (s : Store)
      → NoneOf env (λ i. needs_cleanup i moment) s page
      → (claim_queue_item env others worker moment lease_seconds page s).0 ≡ ok no_item
      → NoneOf env (λ i. claimable i moment) s page
  unfolding claim_queue_item
  no_item-NoneOf page s n k = elim (Bool-cases (str_eq worker "" || ltb 120 (count worker))) [
    | inl bad ↦ absurd (cc (rw bad at k))
    | inr good ↦ elim (Bool-cases (leb lease_seconds 0)) [
      | inl bad ↦ absurd (cc (rw (good, bad) at k))
      | inr fine ↦
          resume-idle page s (scan env worker moment lease_seconds false page s) refl n
            (ok_answer (rw (good, fine) at k))
    ]
  ]
