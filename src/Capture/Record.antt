-- ===== src/Capture/Record.antt =====
-- `record_receipt`, `register_target` and `read_receipt` of src/ei/capture_ledger.py, and `capture_key` of
-- src/ei/capture_contract.py. The digest of an identity and a fresh identifier are parameters.
use Prim.Native.Char.{code}
use Prim.Native.String.{count, slice, len}
use text.Mathlib.Text.{starts_with}
use portable_external_intell.Prelude.{
  Bool, List, Option, Result, String, [], err, false, if◌then◌else◌, insert, is_some, leb, lookup,
  none, not, ok, some, str_eq, true, ℕ, ◌&&◌, ◌==◌, ◌>>=◌, ◌||◌, ◌∷◌,
}
use portable_external_intell.Capture.Receipt.{
  CaptureError, Receipt, capture_host_invalid, capture_id_invalid, capture_receipt_corrupt,
  merge_receipt, unknown, waiting,
}

pub record Identity : Type 0 where
  pub host_id : String
  pub instance_hash : String
  pub store_id : String
  pub session_hash : Option String
  pub turn_hash : Option String
  pub record_hash : Option String

hex_char : ℕ → Bool
hex_char c = (leb b'a' c && leb c b'f') || (leb b'0' c && leb c b'9')

alnum : ℕ → Bool
alnum c = (leb b'A' c && leb c b'Z') || (leb b'a' c && leb c b'z') || (leb b'0' c && leb c b'9')

host_char : ℕ → Bool
unfolding alnum
host_char c = alnum c || c == b'_' || c == b'.' || c == b':' || c == b'@' || c == b'-'

all_chars : (ℕ → Bool) → String → Bool
all_chars test String.[] = true
all_chars test (String.◌∷◌ c rest) = test (code c) && all_chars test rest

-- `[A-Za-z0-9][A-Za-z0-9_.:@-]{0,159}`
unfoldable pub host_ok : String → Bool
unfolding host_char alnum all_chars
host_ok String.[] = false
host_ok (String.◌∷◌ c rest) = alnum (code c) && leb (count rest) 159 && all_chars host_char rest

-- `sha256:[0-9a-f]{64}`
unfoldable pub hash_ok : String → Bool
unfolding hex_char all_chars
hash_ok h = starts_with h "sha256:" && count h == 71 && all_chars hex_char (slice h 7 (len h))

abbrev optional_hash_ok : Option String → Bool
optional_hash_ok none = true
optional_hash_ok (some h) = hash_ok h

-- `capture_key`: no key without the hash of a record.
unfoldable pub capture_key : (Identity → String) → Identity → Result CaptureError (Option String)
capture_key digest i =
    if not (host_ok i.host_id)
    then err capture_host_invalid
    else if not (
        hash_ok i.instance_hash
        && hash_ok i.store_id
        && optional_hash_ok i.session_hash
        && optional_hash_ok i.turn_hash
        && optional_hash_ok i.record_hash)
    then err capture_id_invalid
    else if is_some i.record_hash
    then ok (some (digest i))
    else ok none

-- The receipt files, by capture.
abbrev pub Receipts : Type 0
Receipts = List (String × Receipt)

abbrev pub merged_with : Option Receipt → Receipt → Result CaptureError Receipt
merged_with none new = ok new
merged_with (some old) new = merge_receipt old new

-- `_read_path`: a file that holds the receipt of another capture is corrupt.
abbrev pub read_path : String → Option Receipt → Result CaptureError (Option Receipt)
read_path id none = ok none
read_path id (some r) = if str_eq r.capture_id id then ok (some r) else err capture_receipt_corrupt

unfoldable pub read_receipt : Receipts → String → Result CaptureError (Option Receipt)
read_receipt files id =
    if not (hash_ok id) then err capture_id_invalid else read_path id (lookup id files)

unfoldable pub record_receipt : Receipts → Receipt → Result CaptureError (Receipt × Receipts)
record_receipt files r = read_receipt files r.capture_id >>= λ old.
    merged_with old r >>= λ m. ok (m, insert r.capture_id m files)

abbrev pub first_receipt : String → Option String → ℕ → Receipt
first_receipt fresh none now = record {
  capture_id = fresh;
  state = unknown;
  candidate_ids = [];
  covered_target_ids = [];
  reason_code = "LEGACY_EVIDENCE_UNKNOWN";
  updated_at = now;
  candidate_hashes = [];
  closeout_proofs = [];
}
first_receipt fresh (some id) now = record {
  capture_id = id;
  state = waiting;
  candidate_ids = [];
  covered_target_ids = id ∷ [];
  reason_code = "CAPTURE_WAITING";
  updated_at = now;
  candidate_hashes = [];
  closeout_proofs = [];
}

abbrev pub key_of : (Identity → String) → Option Identity → Result CaptureError (Option String)
key_of digest none = ok none
key_of digest (some i) = capture_key digest i

unfoldable pub register_target :
    (Identity → String)
    → String
    → Option Identity
    → ℕ
    → Receipts
    → Result CaptureError (Receipt × Receipts)
register_target digest fresh identity now files =
    key_of digest identity >>= λ key. record_receipt files (first_receipt fresh key now)

abbrev pub files_after : Result CaptureError (Receipt × Receipts) → Receipts → Receipts
files_after (ok (r, files)) old = files
files_after (err e) old = old

-- The files behind a sequence of records; one that raises leaves them.
abbrev pub record_all : List Receipt → Receipts → Receipts
record_all [] files = files
record_all (r ∷ rs) files = record_all rs (files_after (record_receipt files r) files)
