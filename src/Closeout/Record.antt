-- ===== src/Closeout/Record.antt =====
-- The record of a closeout association, as `_validate_closeout_association` of src/ei/journal.py reads it:
-- the JSON object with its fields in their types, texts of times as instants, and the fields that
-- `_record_matches_intent` of src/ei/closeout_association.py compares as one record.
use Prim.Native.Char.{code}
use Prim.Native.String.{count, slice, len, compare}
use text.Mathlib.Text.{starts_with, is_lt}
use portable_external_intell.Prelude.{
  Bool, List, Option, String, [], false, leb, none, some, true, ℕ, ◌&&◌, ◌+◌, ◌-◌, ◌==◌, ◌||◌, ◌∷◌,
}
use portable_external_intell.Capture.Record.{}
use portable_external_intell.Queue.Item.{SpoolRef}

pub data Status : Type 0 where
  preparing prepared applied committed lost : Status

pub data Decision : Type 0 where
  answer_yes answer_no : Decision

pub record ApplicationRef : Type 0 where
  pub marker_id : String
  pub occurred_at : ℕ
  pub changeset_hash : String

pub record Witness : Type 0 where
  pub event_id : String
  pub occurred_at : ℕ
  pub integrity_digest : String

pub data TeamStatus : Type 0 where
  delivered not_eligible deferred team_pending team_unknown : TeamStatus

pub data ReceiptStatus : Type 0 where
  receipt_pending receipt_deferred receipt_delivered receipt_failed : ReceiptStatus

pub record TeamResult : Type 0 where
  pub status : TeamStatus
  pub reason_code : String
  pub personal_event_hash : Option String
  pub team_store_hash : Option String
  pub team_root_hash : Option String
  pub delivery_event_id : Option String
  pub delivery_event_hash : Option String
  pub receipt_id_hash : Option String
  pub receipt_status : Option ReceiptStatus
  pub integrity_hash : Option String

pub record Intent : Type 0 where
  pub record_id : String
  pub host_hash : String
  pub instance_hash : String
  pub store_hash : String
  pub session_hash : String
  pub record_hash : String
  pub cwd_hash : String
  pub domain_hash : String
  pub target_ids : List String
  pub target_set_hash : String
  pub binding_digest : String
  pub content_hash : String

pub record Association : Type 0 where
  pub schema_version : ℕ
  pub intent : Intent
  pub status : Status
  pub created_at : ℕ
  pub expires_at : ℕ
  pub spool_id : String
  pub spool_ref : Option SpoolRef
  pub decision : Option Decision
  pub candidate_hash : Option String
  pub changeset_id_hash : Option String
  pub changeset_hash : Option String
  pub application_ref : Option ApplicationRef
  pub witness : List Witness
  pub team_result : Option TeamResult
  pub reason_code : String
  pub result_digest : Option String

hex_char : ℕ → Bool
hex_char c = (leb b'a' c && leb c b'f') || (leb b'0' c && leb c b'9')

all_chars : (ℕ → Bool) → String → Bool
all_chars test String.[] = true
all_chars test (String.◌∷◌ c rest) = test (code c) && all_chars test rest

-- `<prefix>[0-9a-f]{n}`, for a prefix of ASCII letters.
unfoldable pub hex_id : String → ℕ → String → Bool
unfolding hex_char all_chars
hex_id prefix n h =
    starts_with h prefix
    && count h == len prefix + n
    && all_chars hex_char (slice h (len prefix) (len h))

-- `co_[0-9a-f]{64}`
abbrev pub record_id_ok : String → Bool
record_id_ok = hex_id "co_" 64

upper : ℕ → Bool
upper c = leb b'A' c && leb c b'Z'

reason_char : ℕ → Bool
unfolding upper
reason_char c = upper c || (leb b'0' c && leb c b'9') || c == b'_'

-- `[A-Z][A-Z0-9_]{0,63}`
unfoldable pub reason_code_ok : String → Bool
unfolding upper reason_char all_chars
reason_code_ok String.[] = false
reason_code_ok (String.◌∷◌ c rest) =
    upper (code c) && leb (count rest) 63 && all_chars reason_char rest

stamp_char : ℕ → Bool
stamp_char c = (leb b'0' c && leb c b'9') || c == b'T' || c == b'Z'

-- `evt_[0-9TZ]+_[0-9a-f]{12}`: in ASCII, the last thirteen characters and those before them.
unfoldable pub delivery_id_ok : String → Bool
unfolding stamp_char hex_char all_chars
delivery_id_ok h =
    let cut = len h - 13 in
    starts_with h "evt_"
    && count h == len h
    && leb 18 (len h)
    && all_chars stamp_char (slice h 4 cut)
    && starts_with (slice h cut (len h)) "_"
    && all_chars hex_char (slice h (cut + 1) (len h))

abbrev pub optional_ok : (String → Bool) → Option String → Bool
optional_ok test none = true
optional_ok test (some h) = test h

-- Strictly ascending: `xs == sorted(set(xs))`.
unfoldable pub ascending : List String → Bool
ascending [] = true
ascending (x ∷ []) = true
ascending (x ∷ y ∷ rest) = is_lt (compare x y) && ascending (y ∷ rest)

abbrev pub status_eq : Status → Status → Bool
status_eq a b = elim a [
  | preparing ↦ elim b [ preparing ↦ true | _ ↦ false ]
  | prepared ↦ elim b [ prepared ↦ true | _ ↦ false ]
  | applied ↦ elim b [ applied ↦ true | _ ↦ false ]
  | committed ↦ elim b [ committed ↦ true | _ ↦ false ]
  | lost ↦ elim b [ lost ↦ true | _ ↦ false ]
]

abbrev pub said : Decision → Option Decision → Bool
said d none = false
said answer_yes (some e) = elim e [ answer_yes ↦ true | answer_no ↦ false ]
said answer_no (some e) = elim e [ answer_yes ↦ false | answer_no ↦ true ]
