-- ===== src/Closeout/Store.antt =====
-- The operations of `CloseoutStore` in src/ei/closeout_store.py. An operation gives the writes that it made,
-- in their order, and its value or error; a crash keeps the first few of them.
use Prim.Native.String.{compare}
use Prim.Native.String.{len}
use text.Mathlib.Text.{is_le}
use portable_external_intell.Prelude.{
  Bool, List, Option, Result, String, [], err, guard, has, if◌then◌else◌, insert, is_some, leb,
  length, lookup, ltb, none, not, ok, some, str_eq, suc, take, true, zero, ℕ, ◌&&◌, ◌++◌, ◌+◌, ◌==◌,
  ◌>>=◌, ◌>>◌, ◌||◌, ◌∷◌,
}
use portable_external_intell.Capture.Receipt.{sorted_add}
use portable_external_intell.Closeout.Record.{Association, preparing, record_id_ok, status_eq}
use portable_external_intell.Closeout.Files.{
  CloseoutStoreError, Cursor, Files, Index, Inventory, StoreEnv, capacity, holds, index_unknown,
  inventory, max_active, max_active_bytes, max_index_bytes, max_record_bytes, read_json,
  read_record_path, record_exists, record_invalid, record_unknown, recovery_limit, required,
  schema_ok, terminal, validate_cursor,
}

pub data Write : Type 0 where
  make_root : Write
  write_index : Index → Write
  write_cursor : Cursor → Write
  write_file : Association → Write

unfoldable pub apply : Write → Files → Files
apply make_root f = record f { root_exists = true }
apply (write_index i) f = record f { index = some (holds i) }
apply (write_cursor c) f = record f { cursor = some (holds c) }
apply (write_file a) f = record f { records = insert a.intent.record_id (holds a) f.records }

unfoldable pub apply_all : List Write → Files → Files
apply_all [] f = f
apply_all (w ∷ ws) f = apply_all ws (apply w f)

-- What an operation did and what came of it.
abbrev pub Done : Type 0 → Type 0
Done A = List Write × Result CloseoutStoreError A

abbrev pub index_of : List String → Index
index_of ids = record { schema_version = 1; active = ids }

abbrev pub cursor_of : Option String → Cursor
cursor_of id = record { schema_version = 1; last_record_id = id }

-- The bytes of `{"active":["...",...],"schema_version":1}` and its line end, for texts without escapes.
unfoldable pub quoted_bytes : List String → ℕ
quoted_bytes [] = 0
quoted_bytes (id ∷ []) = len id + 2
quoted_bytes (id ∷ ids) = len id + 3 + quoted_bytes ids

abbrev pub index_bytes : List String → ℕ
index_bytes ids = 33 + quoted_bytes ids

-- `bisect_right` in an ascending sequence.
unfoldable pub bisect_right : List String → String → ℕ
bisect_right [] x = 0
bisect_right (y ∷ ys) x =
    let rest = bisect_right ys x in if is_le (compare y x) then suc rest else 0

-- `xs[n:]`
unfoldable pub drop {ℓ} : {A : Type ℓ} → ℕ → List A → List A
drop zero xs = xs
drop (suc n) [] = []
drop (suc n) (x ∷ xs) = drop n xs

-- `[item for item in active if item != id]`
unfoldable pub without : String → List String → List String
without id [] = []
without id (x ∷ xs) = let rest = without id xs in if str_eq x id then rest else x ∷ rest

-- The records behind the cursor, and then those before it.
abbrev pub order_from : List String → Option String → List String
order_from active none = active
order_from active (some last) =
    let start = bisect_right active last in
    let first = if start == length active then 0 else start in
    drop first active ++ take first active

-- `[records[id] for id in ids]`
unfoldable pub picked : List String → List (String × Association) → List Association
picked [] records = []
picked (id ∷ ids) records = elim (lookup id records) [
  | none ↦ picked ids records
  | some a ↦ a ∷ picked ids records
]

abbrev pub read_cursor : Files → Result CloseoutStoreError (Option String)
read_cursor f = read_json f.cursor >>= λ c. required index_unknown c >>= λ v. validate_cursor v

-- `_inventory(create=True)` makes the root and, where neither is there, both lists.
abbrev pub opening : Files → List Write
opening f =
    if f.root_exists
    then []
    else if is_some f.index || is_some f.cursor
    then make_root ∷ []
    else make_root ∷ write_index (index_of []) ∷ write_cursor (cursor_of none) ∷ []

abbrev pub is_fresh : Association → Bool
is_fresh a = status_eq a.status preparing && not (is_some a.spool_ref)

abbrev pub advanced_if : Result CloseoutStoreError Inventory → String → Files → Done (Unit {0})
advanced_if (err e) id f = ([], err e)
advanced_if (ok inv) id f =
    let writes = write_cursor (cursor_of (some id)) ∷ [] in
    (writes, read_cursor (apply_all writes f) >>= λ last. ok tt)

module _ (env : StoreEnv) where
  -- `sum(len(_encoded(item)) for key, item in records.items() if key != id)`
  unfoldable pub bytes_without : String → List (String × Association) → ℕ
  bytes_without id [] = 0
  bytes_without id ((key, a) ∷ rest) =
      let below = bytes_without id rest in if str_eq key id then below else env.encoded a + below

  unfoldable pub bytes_of : List (String × Association) → ℕ
  bytes_of [] = 0
  bytes_of ((key, a) ∷ rest) = env.encoded a + bytes_of rest

  abbrev pub sized : Association → Result CloseoutStoreError (Unit {0})
  sized a = guard (leb (env.encoded a) max_record_bytes) capacity

  -- A record that may be reserved: the new list of active ones.
  unfoldable pub admit : Association → Files → Result CloseoutStoreError (List String)
  admit a f =
      let id = a.intent.record_id in
      inventory env f >>= λ found. required index_unknown found >>= λ inv.
      (if has inv.active id then err record_exists else read_record_path env id f) >>= λ old.
      guard (not (is_some old)) record_exists
      >> (guard (ltb (length inv.active) max_active) capacity
          >> (guard (leb (bytes_of inv.records + env.encoded a) max_active_bytes) capacity
              >> (guard (leb (index_bytes (sorted_add id inv.active)) max_index_bytes) capacity
                  >> ok (sorted_add id inv.active))))

  abbrev pub reserved : Association → List Write → Files → List String → Done Association
  reserved a made f active =
      let writes = made ++ write_index (index_of active) ∷ write_file a ∷ [] in
      (writes, inventory env (apply_all writes f) >>= λ found. ok a)

  abbrev pub reserve_from :
      Result CloseoutStoreError (List String) → Association → List Write → Files → Done Association
  reserve_from (err e) a made f = (made, err e)
  reserve_from (ok active) a made f = reserved a made f active

  abbrev pub reserve_if :
      Result CloseoutStoreError (Unit {0}) → Association → Files → Done Association
  reserve_if (err e) a f = ([], err e)
  reserve_if (ok u) a f = reserve_from (admit a (apply_all (opening f) f)) a (opening f) f

  unfoldable pub may_reserve : Association → Result CloseoutStoreError (Unit {0})
  may_reserve a = schema_ok env record_invalid a >> (guard (is_fresh a) record_invalid >> sized a)

  unfoldable pub reserve : Association → Files → Done Association
  reserve a f = reserve_if (may_reserve a) a f

  abbrev pub listed_or_finished :
      String → Inventory → Option Association → Result CloseoutStoreError (Option Association)
  listed_or_finished id inv none = ok none
  listed_or_finished id inv (some value) =
      guard (has inv.active id || terminal value.status) index_unknown >> ok (some value)

  abbrev pub read_listed :
      String → Files → Option Inventory → Result CloseoutStoreError (Option Association)
  read_listed id f none = ok none
  read_listed id f (some inv) =
      read_record_path env id f >>= λ found. listed_or_finished id inv found

  unfoldable pub read_record : String → Files → Result CloseoutStoreError (Option Association)
  read_record id f = inventory env f >>= λ found. read_listed id f found

  unfoldable pub active_records : ℕ → Files → Result CloseoutStoreError (List Association)
  active_records most f =
      guard (leb 1 most && leb most max_active) recovery_limit
      >> (inventory env f >>= λ found. elim found [
        | none ↦ ok []
        | some inv ↦ ok (picked (take most (order_from inv.active inv.last_record_id)) inv.records)
      ])

  abbrev pub room_for : Association → Inventory → Result CloseoutStoreError (Unit {0})
  room_for a inv =
      let sum = bytes_without a.intent.record_id inv.records + env.encoded a in
      guard (not (has inv.active a.intent.record_id) || leb sum max_active_bytes) capacity

  -- The record is listed or has a file.
  abbrev pub known :
      CloseoutStoreError → Association → Files → Inventory → Result CloseoutStoreError (Unit {0})
  known e a f inv =
      if has inv.active a.intent.record_id
      then ok tt
      else (read_record_path env a.intent.record_id f >>= λ old. guard (is_some old) e)

  unfoldable pub may_write : Association → Files → Result CloseoutStoreError (Unit {0})
  may_write a f =
      schema_ok env record_invalid a
      >> (sized a
          >> (inventory env f >>= λ found. required record_unknown found >>= λ inv.
              known record_unknown a f inv >> room_for a inv))

  -- The record behind its write is read back.
  abbrev pub written_if :
      Result CloseoutStoreError (Unit {0}) → Association → Files → Done Association
  written_if (err e) a f = ([], err e)
  written_if (ok u) a f = (
    write_file a ∷ [],
    read_record_path env a.intent.record_id (apply (write_file a) f) >>= λ found. ok a,
  )

  unfoldable pub write_record : Association → Files → Done Association
  write_record a f = written_if (may_write a f) a f

  unfoldable pub advance_cursor : String → Files → Done (Unit {0})
  advance_cursor id f =
      advanced_if
        (guard (record_id_ok id) record_invalid
          >> (inventory env f >>= λ found. required index_unknown found))
        id f
