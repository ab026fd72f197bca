-- ===== src/Capture/Receipt.antt =====
-- The receipt of src/ei/capture_contract.py and `merge_receipt` of src/ei/capture_ledger.py. The tuples of
-- pairs and of proofs are read as the dictionaries that the code makes of them, a proof by its record.
use Prim.Native.Nat.{Ordering}
use Prim.Native.String.{compare}
use portable_external_intell.Prelude.{
  Bool, List, Option, Result, String, [], err, false, if◌then◌else◌, insert, is_nil, leb, lookup,
  none, not, ok, some, str_eq, true, ℕ, ◌&&◌, ◌++◌, ◌>>=◌, ◌||◌, ◌∷◌,
}

pub data CaptureState : Type 0 where
  waiting secured evaluated_none unavailable unknown : CaptureState

pub record CloseoutProof : Type 0 where
  pub record_id : String
  pub target_set_hash : String
  pub content_hash : String
  pub binding_digest : String
  pub result_digest : String

pub record Receipt : Type 0 where
  pub capture_id : String
  pub state : CaptureState
  pub candidate_ids : List String
  pub covered_target_ids : List String
  pub reason_code : String
  pub updated_at : ℕ
  pub candidate_hashes : List (String × String)
  pub closeout_proofs : List (String × CloseoutProof)

pub data CaptureError : Type 0 where
  capture_id_conflict capture_content_conflict : CaptureError
  capture_closeout_proof_conflict capture_id_invalid : CaptureError
  capture_host_invalid capture_receipt_corrupt : CaptureError

abbrev pub is_unknown : CaptureState → Bool
is_unknown s = elim s [ unknown ↦ true | _ ↦ false ]

abbrev pub is_waiting : CaptureState → Bool
is_waiting s = elim s [ waiting ↦ true | _ ↦ false ]

unfoldable pub proof_eq : CloseoutProof → CloseoutProof → Bool
proof_eq a b =
    str_eq a.record_id b.record_id
    && str_eq a.target_set_hash b.target_set_hash
    && str_eq a.content_hash b.content_hash
    && str_eq a.binding_digest b.binding_digest
    && str_eq a.result_digest b.result_digest

-- A text put into a sorted sequence without repetition.
unfoldable pub sorted_add : String → List String → List String
sorted_add x [] = x ∷ []
sorted_add x (y ∷ ys) =
    let further = sorted_add x ys in
    elim (compare x y) [
      | Ordering.lt ↦ x ∷ y ∷ ys
      | Ordering.eq ↦ y ∷ ys
      | Ordering.gt ↦ y ∷ further
    ]

unfoldable pub sorted_set : List String → List String
sorted_set [] = []
sorted_set (x ∷ xs) = sorted_add x (sorted_set xs)

-- `sorted(set(a) | set(b))`
abbrev pub union : List String → List String → List String
union a b = sorted_set (a ++ b)

module _ {V : Type 0} where
  -- An entry put into a sequence that is sorted by its keys.
  unfoldable pub sorted_put : String → V → List (String × V) → List (String × V)
  sorted_put key v [] = (key, v) ∷ []
  sorted_put key v ((here, w) ∷ rest) =
      let further = sorted_put key v rest in
      elim (compare key here) [
        | Ordering.lt ↦ (key, v) ∷ (here, w) ∷ rest
        | Ordering.eq ↦ (key, v) ∷ rest
        | Ordering.gt ↦ (here, w) ∷ further
      ]

  -- `sorted(m.items())` of a dictionary.
  unfoldable pub sorted_items : List (String × V) → List (String × V)
  sorted_items [] = []
  sorted_items ((key, v) ∷ m) = sorted_put key v (sorted_items m)

  abbrev pub conflicts : (V → V → Bool) → Option V → V → Bool
  conflicts eq none v = false
  conflicts eq (some w) v = not (eq w v)

  -- The loop that adds the new entries, and refuses one that says something else.
  unfoldable pub merge_entries :
      (V → V → Bool)
      → CaptureError
      → List (String × V)
      → List (String × V)
      → Result CaptureError (List (String × V))
  merge_entries eq e m [] = ok m
  merge_entries eq e m ((key, v) ∷ more) =
      let rest = merge_entries eq e (insert key v m) more in
      if conflicts eq (lookup key m) v then err e else rest

abbrev pub later : ℕ → ℕ → ℕ
later a b = if leb a b then b else a

abbrev pub is_expired : Receipt → Bool
is_expired r = str_eq r.reason_code "PENDING_EXPIRED"

-- The receipt of two that agree, an expired one or the newer.
unfoldable pub combined :
    Receipt → Receipt → List (String × String) → List (String × CloseoutProof) → Receipt
combined old new hashes proofs =
    let candidates = union old.candidate_ids new.candidate_ids in
    let covered = union old.covered_target_ids new.covered_target_ids in
    if is_expired old || is_expired new
    then record {
      capture_id = old.capture_id;
      state = unavailable;
      candidate_ids = candidates;
      covered_target_ids = covered;
      reason_code = "PENDING_EXPIRED";
      updated_at = later old.updated_at new.updated_at;
      candidate_hashes = sorted_items hashes;
      closeout_proofs = old.closeout_proofs;
    }
    else record {
      capture_id = new.capture_id;
      state =
          if not (is_nil candidates)
          then secured
          else if is_waiting new.state
          then old.state
          else new.state;
      candidate_ids = candidates;
      covered_target_ids = covered;
      reason_code = new.reason_code;
      updated_at = later old.updated_at new.updated_at;
      candidate_hashes = sorted_items hashes;
      closeout_proofs = sorted_items proofs;
    }

unfoldable pub merge_receipt : Receipt → Receipt → Result CaptureError Receipt
merge_receipt old new =
    if not (str_eq old.capture_id new.capture_id)
    then err capture_id_conflict
    else if is_unknown old.state
    then ok old
    else merge_entries str_eq capture_content_conflict old.candidate_hashes new.candidate_hashes
      >>= λ hashes.
          merge_entries proof_eq capture_closeout_proof_conflict old.closeout_proofs
            new.closeout_proofs
          >>= λ proofs. ok (combined old new hashes proofs)
