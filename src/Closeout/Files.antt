-- ===== src/Closeout/Files.antt =====
-- The files of src/ei/closeout_store.py and the reading of all of them, `_inventory`.

use portable_external_intell.Prelude.{
  Bool, List, Option, Result, String, [], all, err, false, guard, has, if◌then◌else◌, leb, length,
  lookup, none, ok, some, str_eq, true, ℕ, ◌&&◌, ◌+◌, ◌==◌, ◌>>=◌, ◌>>◌, ◌||◌, ◌∷◌,
}
use portable_external_intell.Closeout.Record.{
  Association, Status, ascending, committed, lost, optional_ok, record_id_ok,
}
use portable_external_intell.Closeout.Schema.{validate_association}

pub data CloseoutStoreError : Type 0 where
  index_unknown record_invalid capacity record_exists record_unknown : CloseoutStoreError
  recovery_limit record_conflict target_conflict state_conflict : CloseoutStoreError
  application_ref_conflict proof_conflict : CloseoutStoreError

-- A file that is there: a JSON object of the expected kinds, or anything else (no regular file, more
-- bytes than its limit, no object, other fields).
pub data Document (A : Type 0) : Type 0 where
  unreadable : Document A
  holds : A → Document A

pub record Index : Type 0 where
  pub schema_version : ℕ
  pub active : List String

pub record Cursor : Type 0 where
  pub schema_version : ℕ
  pub last_record_id : Option String

pub record Files : Type 0 where
  pub root_exists : Bool
  pub index : Option (Document Index)
  pub cursor : Option (Document Cursor)
  pub records : List (String × Document Association)

abbrev pub no_files : Files
no_files = record { root_exists = false; index = none; cursor = none; records = [] }

-- What the store takes from outside: the number of bytes of a record's JSON text, and the search for
-- forbidden content.
pub record StoreEnv : Type 0 where
  pub encoded : Association → ℕ
  pub forbidden : Association → Bool

abbrev pub max_record_bytes : ℕ
max_record_bytes = 16384

abbrev pub max_active : ℕ
max_active = 64

abbrev pub max_active_bytes : ℕ
max_active_bytes = 1048576

abbrev pub max_index_bytes : ℕ
max_index_bytes = 16384

abbrev pub read_json : {A : Type 0} → Option (Document A) → Result CloseoutStoreError (Option A)
read_json none = ok none
read_json (some unreadable) = err index_unknown
read_json (some (holds a)) = ok (some a)

abbrev pub validate_index : Index → Result CloseoutStoreError (List String)
validate_index i =
    if i.schema_version == 1
      && leb (length i.active) max_active
      && all record_id_ok i.active
      && ascending i.active
    then ok i.active
    else err index_unknown

abbrev pub validate_cursor : Cursor → Result CloseoutStoreError (Option String)
validate_cursor c =
    if c.schema_version == 1 && optional_ok record_id_ok c.last_record_id
    then ok c.last_record_id
    else err index_unknown

-- `{"COMMITTED", "LOST"}`
abbrev pub terminal : Status → Bool
terminal s = elim s [ committed ↦ true | lost ↦ true | _ ↦ false ]

abbrev pub required : {A : Type 0} → CloseoutStoreError → Option A → Result CloseoutStoreError A
required e none = err e
required e (some a) = ok a

-- `except (ValueError, TypeError): raise e`
abbrev pub raised_as :
    CloseoutStoreError → Result String (Unit {0}) → Result CloseoutStoreError (Unit {0})
raised_as e (ok u) = ok u
raised_as e (err field) = err e

pub record Inventory : Type 0 where
  pub active : List String
  pub last_record_id : Option String
  pub records : List (String × Association)

module _ (env : StoreEnv) where
  abbrev pub schema_ok : CloseoutStoreError → Association → Result CloseoutStoreError (Unit {0})
  schema_ok e a = raised_as e (validate_association env.forbidden a)

  abbrev pub check_record :
      String → Option Association → Result CloseoutStoreError (Option Association)
  check_record id none = ok none
  check_record id (some a) =
      schema_ok index_unknown a
      >> (if str_eq a.intent.record_id id then ok (some a) else err index_unknown)

  -- `_read_record_path`
  unfoldable pub read_record_path : String → Files → Result CloseoutStoreError (Option Association)
  read_record_path id f =
      guard (record_id_ok id) record_invalid
      >> (read_json (lookup id f.records) >>= λ a. check_record id a)

  -- The loop over the active records, with their bytes so far.
  unfoldable pub load :
      List String → ℕ → Files → Result CloseoutStoreError (List (String × Association))
  load [] total f = ok []
  load (id ∷ ids) total f = read_record_path id f >>= λ found. required index_unknown found >>= λ a.
      (let sum = total + env.encoded a in
        let rest = load ids sum f in
        guard (leb sum max_active_bytes) index_unknown >> (rest >>= λ more. ok ((id, a) ∷ more)))

  -- The record of the cursor must be there, and be listed or finished.
  abbrev pub cursor_ok : List String → Option String → Files → Result CloseoutStoreError (Unit {0})
  cursor_ok active none f = ok tt
  cursor_ok active (some id) f = read_record_path id f >>= λ found.
      required index_unknown found >>= λ a. guard (has active id || terminal a.status) index_unknown

  unfoldable pub records_of :
      List String → Option String → Files → Result CloseoutStoreError (Option Inventory)
  records_of active last f =
      cursor_ok active last f
      >> (load active 0 f >>= λ records.
          ok (some (record { active = active; last_record_id = last; records = records })))

  unfoldable pub valid_inventory :
      Index → Cursor → Files → Result CloseoutStoreError (Option Inventory)
  valid_inventory index cursor f =
      validate_index index >>= λ active. validate_cursor cursor >>= λ last. records_of active last f

  -- `_inventory`
  unfoldable pub inventory : Files → Result CloseoutStoreError (Option Inventory)
  inventory f =
      if f.root_exists
      then (read_json f.index >>= λ i. read_json f.cursor >>= λ c.
          required index_unknown i >>= λ index.
          required index_unknown c >>= λ cursor. valid_inventory index cursor f)
      else ok none
