-- ===== src/Capture/Kept.antt =====
-- What a receipt of src/ei/capture_ledger.py keeps, over one merge and over any records.
use portable_external_intell.Prelude.{
  AllOk, Bool-cases, List, Result-cases, String, [], ap, arith, chain-AllOk, eq_iff, false, has,
  if_elim, inl, inr, insert, is_nil, lookup, lookup-insert, ok, refl, some, str_eq, subst, sym,
  true, ◌||◌, ◌∙◌, ◌∷◌, ◌≡◌,
}
use portable_external_intell.Capture.Receipt.{
  CloseoutProof, Receipt, capture_content_conflict, combined, is_expired, is_unknown, merge_receipt,
  secured, union,
}
use portable_external_intell.Capture.Record.{
  Receipts, files_after, hash_ok, merged_with, read_receipt, record_all, record_receipt,
}
use portable_external_intell.Capture.Merging.{
  Merged, candidates-combined, has-union, hashes-combined, joined, lookup-merge_entries,
  merge_receipt-Merged, stayed, str_eq-same,
}

Merged-hash :
    (old new m : Receipt) (id h : String)
    → Merged old new m
    → lookup id old.candidate_hashes ≡ some h
    → lookup id m.candidate_hashes ≡ some h
Merged-hash old new _ id h (stayed u) k = k
Merged-hash old new _ id h (joined hashes proofs u e) k =
    hashes-combined old new hashes proofs id
    ∙ lookup-merge_entries str_eq capture_content_conflict id h old.candidate_hashes
        new.candidate_hashes hashes str_eq-same k e

Merged-candidates :
    (old new m : Receipt) (id : String)
    → Merged old new m
    → is_unknown old.state ≡ false
    → has m.candidate_ids id ≡ (has old.candidate_ids id || has new.candidate_ids id)
Merged-candidates old new _ id (stayed u) k = cc
Merged-candidates old new _ id (joined hashes proofs u e) k =
    candidates-combined old new hashes proofs id

-- A receipt that is not unknown has, behind a merge, the candidates of both receipts and no others.
pub merge-candidates :
    (old new m : Receipt) (id : String)
    → is_unknown old.state ≡ false
    → merge_receipt old new ≡ ok m
    → has m.candidate_ids id ≡ (has old.candidate_ids id || has new.candidate_ids id)
merge-candidates old new m id k h =
    Merged-candidates old new m id (merge_receipt-Merged old new m h) k

has-nil : (id : String) (xs : List String) → has xs id ≡ true → is_nil xs ≡ false
has-nil id [] h = cc
has-nil id (x ∷ xs) h = refl

combined-secured :
    (old new : Receipt) (hashes : List (String × String)) (proofs : List (String × CloseoutProof))
    → (is_expired old || is_expired new) ≡ false
    → is_nil (union old.candidate_ids new.candidate_ids) ≡ false
    → (combined old new hashes proofs).state ≡ secured
unfolding combined
combined-secured old new hashes proofs x n = rw (x, n) refl

Merged-secured :
    (old new m : Receipt)
    → Merged old new m
    → is_unknown old.state ≡ false
    → (is_expired old || is_expired new) ≡ false
    → is_nil (union old.candidate_ids new.candidate_ids) ≡ false
    → m.state ≡ secured
Merged-secured old new _ (stayed u) k x n = cc
Merged-secured old new _ (joined hashes proofs u e) k x n =
    combined-secured old new hashes proofs x n

-- With a candidate in either receipt, neither of them expired and the older one not unknown, the
-- merge is secured.
pub merge-secured :
    (old new m : Receipt) (id : String)
    → is_unknown old.state ≡ false
    → (is_expired old || is_expired new) ≡ false
    → (has old.candidate_ids id || has new.candidate_ids id) ≡ true
    → merge_receipt old new ≡ ok m
    → m.state ≡ secured
merge-secured old new m id k x c h =
    Merged-secured old new m (merge_receipt-Merged old new m h) k x (
      has-nil id (union old.candidate_ids new.candidate_ids)
        (has-union id old.candidate_ids new.candidate_ids ∙ c))

Merged-id :
    (old new m : Receipt)
    → Merged old new m
    → new.capture_id ≡ old.capture_id
    → m.capture_id ≡ old.capture_id
unfolding combined
Merged-id old new _ (stayed u) k = refl
Merged-id old new _ (joined hashes proofs u e) k =
    if_elim (λ (r : Receipt). r.capture_id ≡ old.capture_id) (is_expired old || is_expired new) refl
      k

module _ (id candidate hash : String) where
  -- The file reads, and binds the candidate to the hash.
  pub record Binds (files : Receipts) : Type 0 where
    pub receipt : Receipt
    pub named : hash_ok id ≡ true
    pub stored : lookup id files ≡ some receipt
    pub own : str_eq receipt.capture_id id ≡ true
    pub bound : lookup candidate receipt.candidate_hashes ≡ some hash

  Binds-other :
      (files : Receipts) (r m : Receipt)
      → Binds files
      → str_eq r.capture_id id ≡ false
      → Binds (insert r.capture_id m files)
  Binds-other files r m b other = record {
    receipt = b.receipt;
    named = b.named;
    stored = lookup-insert r.capture_id id m files ∙ rw other b.stored;
    own = b.own;
    bound = b.bound;
  }

  Binds-own :
      (files : Receipts) (r m : Receipt)
      → (b : Binds files) → str_eq r.capture_id id ≡ true
      → merge_receipt b.receipt r ≡ ok m
      → Binds (insert r.capture_id m files)
  Binds-own files r m b same_id h =
      let one : r.capture_id ≡ id = ground (arith, eq_iff r.capture_id id) in
      let two : b.receipt.capture_id ≡ id =
        let own = b.own in ground (arith, eq_iff b.receipt.capture_id id) in
      let merged = merge_receipt-Merged b.receipt r m h in
      record {
        receipt = m;
        named = b.named;
        stored = lookup-insert r.capture_id id m files ∙ rw same_id refl;
        own = ap (λ k. str_eq k id) (Merged-id b.receipt r m merged (one ∙ sym two)) ∙ b.own;
        bound = Merged-hash b.receipt r m candidate hash merged b.bound;
      }

  read-own : (files : Receipts) → (b : Binds files) → read_receipt files id ≡ ok (some b.receipt)
  unfolding read_receipt
  read-own files b = rw (b.named, b.stored, b.own) refl

  Binds-recorded :
      (files : Receipts) (r : Receipt)
      → Binds files
      → AllOk (λ k. Binds k.1) (record_receipt files r)
  unfolding record_receipt
  Binds-recorded files r b = elim (Bool-cases (str_eq r.capture_id id)) [
    | inr other ↦
        chain-AllOk (λ k. Binds k.1) (read_receipt files r.capture_id) _
          (λ old.
            chain-AllOk (λ k. Binds k.1) (merged_with old r) _ (λ m. Binds-other files r m b other))
    | inl same_id ↦
        let one : r.capture_id ≡ id = ground (arith, eq_iff r.capture_id id) in
        let read : read_receipt files r.capture_id ≡ ok (some b.receipt) =
          ap (λ k. read_receipt files k) one ∙ read-own files b in
        rw read (elim (Result-cases (merge_receipt b.receipt r)) [
          | inl (m, e) ↦ rw e (Binds-own files r m b same_id e)
          | inr (x, e) ↦ rw e tt
        ])
  ]

  Binds-after :
      (files : Receipts) (r : Receipt)
      → Binds files
      → Binds (files_after (record_receipt files r) files)
  Binds-after files r b = elim (Result-cases (record_receipt files r)) [
    | inl ((m, after), e) ↦ rw e (subst (AllOk (λ k. Binds k.1)) e (Binds-recorded files r b))
    | inr (x, e) ↦ rw e b
  ]

  -- Once the file of a capture reads and binds a candidate to a hash, it does so behind any
  -- sequence of records, of whichever captures and with whatever conflicts.
  pub record_all-Binds :
      (rs : List Receipt) (files : Receipts) → Binds files → Binds (record_all rs files)
  record_all-Binds [] files b = b
  record_all-Binds (r ∷ rs) files b =
      record_all-Binds rs (files_after (record_receipt files r) files) (Binds-after files r b)
