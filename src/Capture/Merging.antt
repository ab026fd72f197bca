-- ===== src/Capture/Merging.antt =====
-- What a merge of src/ei/capture_ledger.py keeps of the older receipt.

use portable_external_intell.Prelude.{
  AllOk, Bool, Bool-cases, List, Result-cases, String, [], ap, arith, chain-AllOk, eq_iff, false,
  has, if_elim, if_split, if◌then◌else◌, inl, inr, insert, lookup, lookup-insert, not, ok, refl,
  some, str_eq, subst, sym, true, ◌++◌, ◌>>=◌, ◌||◌, ◌∙◌, ◌∷◌, ◌≡◌,
}
use portable_external_intell.Capture.Receipt.{
  CaptureError, CloseoutProof, Receipt, capture_closeout_proof_conflict, capture_content_conflict,
  combined, conflicts, is_expired, is_unknown, merge_entries, merge_receipt, proof_eq, sorted_add,
  sorted_items, sorted_put, sorted_set, union,
}

pub has-sorted_add :
    (x id : String) (xs : List String) → has (sorted_add x xs) id ≡ (str_eq x id || has xs id)
unfolding sorted_add
has-sorted_add x id [] = refl
has-sorted_add x id (y ∷ ys) =
    let below = has-sorted_add x id ys in ground (arith, below, eq_iff x y)

has-sorted_set : (id : String) (xs : List String) → has (sorted_set xs) id ≡ has xs id
unfolding sorted_set
has-sorted_set id [] = refl
has-sorted_set id (x ∷ xs) = rw (has-sorted_add x id (sorted_set xs), has-sorted_set id xs) refl

has-append : (id : String) (xs ys : List String) → has (xs ++ ys) id ≡ (has xs id || has ys id)
has-append id [] ys = refl
has-append id (x ∷ xs) ys = let below = has-append id xs ys in ground arith

pub has-union :
    (id : String) (xs ys : List String) → has (union xs ys) id ≡ (has xs id || has ys id)
has-union id xs ys = has-sorted_set id (xs ++ ys) ∙ has-append id xs ys

module _ {V : Type 0} where
  lookup-sorted_put :
      (key id : String) (v : V) (m : List (String × V))
      → lookup id (sorted_put key v m) ≡ (if str_eq key id then some v else lookup id m)
  unfolding sorted_put lookup
  lookup-sorted_put key id v [] = refl
  lookup-sorted_put key id v ((here, w) ∷ m) =
      let below = lookup-sorted_put key id v m in
      ground (arith, below, eq_iff key here, eq_iff here id, eq_iff key id)

  pub lookup-sorted_items :
      (id : String) (m : List (String × V)) → lookup id (sorted_items m) ≡ lookup id m
  unfolding sorted_items lookup
  lookup-sorted_items id [] = refl
  lookup-sorted_items id ((key, v) ∷ m) =
      rw (lookup-sorted_put key id v (sorted_items m), lookup-sorted_items id m) refl

  put_same :
      (eq : V → V → Bool) (key id : String) (v w : V) (m : List (String × V))
      → ((a b : V) → eq a b ≡ true → a ≡ b)
      → lookup id m ≡ some v
      → conflicts eq (lookup key m) w ≡ false
      → lookup id (insert key w m) ≡ some v
  put_same eq key id v w m same_as h c = elim (Bool-cases (str_eq key id)) [
    | inl e ↦
        let one : key ≡ id = ground (arith, eq_iff key id) in
        let there : lookup key m ≡ some v = ap (λ k. lookup k m) one ∙ h in
        let agrees : not (eq v w) ≡ false = rw there at c in
        let both : v ≡ w = same_as v w (ground arith) in
        lookup-insert key id w m ∙ rw e (ap (λ x. some x) (sym both))
    | inr e ↦ lookup-insert key id w m ∙ rw e h
  ]

  -- An entry that is there stays, up to what the comparison takes for the same.
  pub lookup-merge_entries :
      (eq : V → V → Bool) (e : CaptureError) (id : String) (v : V) (m new : List (String × V))
      (out : List (String × V))
      → ((a b : V) → eq a b ≡ true → a ≡ b)
      → lookup id m ≡ some v
      → merge_entries eq e m new ≡ ok out
      → lookup id out ≡ some v
  unfolding merge_entries
  lookup-merge_entries eq e id v m [] out same_as h k =
      let one : m ≡ out = ground arith in subst (λ x. lookup id x ≡ some v) one h
  lookup-merge_entries eq e id v m ((key, w) ∷ new) out same_as h k =
      elim (Bool-cases (conflicts eq (lookup key m) w)) [
        | inl c ↦ let stop = rw c at k in absurd (cc stop)
        | inr c ↦
            lookup-merge_entries eq e id v (insert key w m) new out same_as
              (put_same eq key id v w m same_as h c) (rw c at k)
      ]

pub str_eq-same : (a b : String) → str_eq a b ≡ true → a ≡ b
str_eq-same a b h = ground (arith, eq_iff a b)

pub hashes-combined :
    (old new : Receipt) (hashes : List (String × String)) (proofs : List (String × CloseoutProof))
    (id : String)
    → lookup id (combined old new hashes proofs).candidate_hashes ≡ lookup id hashes
unfolding combined
hashes-combined old new hashes proofs id =
    if_elim (λ (r : Receipt). lookup id r.candidate_hashes ≡ lookup id hashes)
      (is_expired old || is_expired new) (lookup-sorted_items id hashes)
      (lookup-sorted_items id hashes)

pub candidates-combined :
    (old new : Receipt) (hashes : List (String × String)) (proofs : List (String × CloseoutProof))
    (id : String)
    → has (combined old new hashes proofs).candidate_ids id
      ≡ (has old.candidate_ids id || has new.candidate_ids id)
unfolding combined
candidates-combined old new hashes proofs id =
    if_elim
      (λ (r : Receipt).
        has r.candidate_ids id ≡ (has old.candidate_ids id || has new.candidate_ids id))
      (is_expired old || is_expired new) (has-union id old.candidate_ids new.candidate_ids)
      (has-union id old.candidate_ids new.candidate_ids)

-- A merge that succeeds: the older receipt is unknown and stays, or the two are combined.
pub data Merged (old new : Receipt) : Receipt → Type 0 where
  stayed : is_unknown old.state ≡ true → Merged old new old
  joined :
      (hashes : List (String × String)) (proofs : List (String × CloseoutProof))
      → is_unknown old.state ≡ false
      → merge_entries str_eq capture_content_conflict old.candidate_hashes new.candidate_hashes
        ≡ ok hashes
      → Merged old new (combined old new hashes proofs)

known-Merged :
    (old new : Receipt)
    → is_unknown old.state ≡ false
    → AllOk (Merged old new) (
        merge_entries str_eq capture_content_conflict old.candidate_hashes new.candidate_hashes
        >>= λ hashes.
            merge_entries proof_eq capture_closeout_proof_conflict old.closeout_proofs
              new.closeout_proofs
            >>= λ proofs. ok (combined old new hashes proofs))
known-Merged old new known =
    elim (Result-cases
      (merge_entries str_eq capture_content_conflict old.candidate_hashes new.candidate_hashes)) [
        | inl (hashes, e) ↦ rw e (
            chain-AllOk (Merged old new)
              (merge_entries proof_eq capture_closeout_proof_conflict old.closeout_proofs
                new.closeout_proofs)
              _ (λ proofs. joined hashes proofs known e))
        | inr (x, e) ↦ rw e tt
      ]

merge-Merged : (old new : Receipt) → AllOk (Merged old new) (merge_receipt old new)
unfolding merge_receipt
merge-Merged old new =
    if_elim (AllOk (Merged old new)) (not (str_eq old.capture_id new.capture_id)) tt (
      if_split (AllOk (Merged old new)) (is_unknown old.state) (λ u. stayed u)
        (λ k. known-Merged old new k))

pub merge_receipt-Merged : (old new m : Receipt) → merge_receipt old new ≡ ok m → Merged old new m
merge_receipt-Merged old new m h = subst (AllOk (Merged old new)) h (merge-Merged old new)
