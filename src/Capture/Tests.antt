-- ===== src/Capture/Tests.antt =====
-- Merges and records of src/ei/capture_ledger.py.
use portable_external_intell.Prelude.{
  String, [], err, has, insert, lookup, ok, refl, true, ◌∷◌, ◌≡◌,
}
use portable_external_intell.Capture.Receipt.{
  Receipt, capture_content_conflict, combined, merge_entries, merge_receipt, secured, sorted_add,
  sorted_items, sorted_put, sorted_set, unavailable, waiting,
}
use portable_external_intell.Capture.Record.{Receipts, hash_ok, record_all}
use portable_external_intell.Capture.Kept.{Binds, merge-candidates, merge-secured, record_all-Binds}

abbrev capture : String
capture = "sha256:0123456789abcdef0123456789abcdef0123456789abcdef0123456789abcdef"

abbrev open_receipt : Receipt
open_receipt = record {
  capture_id = capture;
  state = waiting;
  candidate_ids = [];
  covered_target_ids = capture ∷ [];
  reason_code = "CAPTURE_WAITING";
  updated_at = 1;
  candidate_hashes = [];
  closeout_proofs = [];
}

abbrev found : Receipt
found = record open_receipt {
  state = secured;
  candidate_ids = "k2" ∷ "k1" ∷ [];
  reason_code = "SECURED";
  updated_at = 2;
  candidate_hashes = ("k2", "h2") ∷ ("k1", "h1") ∷ [];
}

abbrev late : Receipt
late = record open_receipt { state = unavailable; reason_code = "PENDING_EXPIRED"; updated_at = 3 }

abbrev both : Receipt
both = record found {
  candidate_ids = "k1" ∷ "k2" ∷ [];
  candidate_hashes = ("k1", "h1") ∷ ("k2", "h2") ∷ [];
}

abbrev both_late : Receipt
both_late = record both { state = unavailable; reason_code = "PENDING_EXPIRED"; updated_at = 3 }

merged : merge_receipt open_receipt found ≡ ok both
unfolding merge_receipt merge_entries combined sorted_set sorted_add sorted_items sorted_put lookup
    insert
merged = refl

other_hash :
    merge_receipt found (record found { candidate_hashes = ("k1", "h9") ∷ [] })
    ≡ err capture_content_conflict
unfolding merge_receipt merge_entries lookup insert
other_hash = refl

merge-candidates_example : has both.candidate_ids "k1" ≡ true
merge-candidates_example = merge-candidates open_receipt found both "k1" refl merged

merge-secured_example : both.state ≡ secured
merge-secured_example = merge-secured open_receipt found both "k1" refl refl refl merged

abbrev files : Receipts
files = (capture, both) ∷ []

capture-ok : hash_ok capture ≡ true
unfolding hash_ok
capture-ok = refl

at_first : Binds capture "k1" "h1" files
unfolding lookup
at_first = record { receipt = both; named = capture-ok; stored = refl; own = refl; bound = refl }

record_all-Binds_example : Binds capture "k1" "h1" (record_all (late ∷ found ∷ []) files)
record_all-Binds_example = record_all-Binds capture "k1" "h1" (late ∷ found ∷ []) files at_first
