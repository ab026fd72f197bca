-- ===== src/Closeout/View.antt =====
-- What a write of src/ei/closeout_store.py does to what is read: `read_record` as a map from identifiers.
use portable_external_intell.Prelude.{
  >>-eq-ok, >>=-eq-ok, Bool, Bool-cases, List, Option, Result, String, ap, arith, eq_iff, err,
  false, guard-eq-ok, has, if◌then◌else◌, inl, inr, leb, none, not, ok, refl, some, str_eq, subst,
  sym, true, ℕ, ◌&&◌, ◌+◌, ◌>>=◌, ◌||◌, ◌∙◌, ◌≡◌, ◌≤◌,
}
use portable_external_intell.Closeout.Record.{Association, ascending}
use portable_external_intell.Closeout.Files.{
  CloseoutStoreError, Files, Inventory, StoreEnv, cursor_ok, index_unknown, inventory, load,
  max_active_bytes, read_json, read_record_path, record_invalid, record_unknown, records_of,
  required, schema_ok, terminal, valid_inventory, validate_cursor, validate_index,
}
use portable_external_intell.Closeout.Store.{
  apply, apply_all, bytes_without, known, may_write, read_record, room_for, sized, write_file,
  write_record, written_if,
}
use portable_external_intell.Closeout.Renewed.{
  bytes_of-renewed, listed_guard, load-keys, load-newer, load-read, newer, path-elsewhere,
  path-newer, raised_as-other, renewed,
}
use portable_external_intell.Closeout.Reading.{inventory-Listing, required-some, where_true}

abbrev pub is_ok : {A : Type 0} → Result CloseoutStoreError A → Bool
is_ok (ok a) = true
is_ok (err e) = false

if_true :
    {A : Type 0} (test : Bool) (n : Result CloseoutStoreError A) {m : Result CloseoutStoreError A}
    {x : A}
    → test ≡ true
    → m ≡ ok x
    → (if test then m else n) ≡ ok x
if_true true n h k = k
if_true false n h k = cc

-- A chain goes on as another one does, where each step does.
chain-onward :
    {A B C : Type 0} (m : Result CloseoutStoreError A) {g : A → Result CloseoutStoreError B}
    {g' : A → Result CloseoutStoreError C} {x : B} {y : C}
    → (m >>= g) ≡ ok x
    → ((a : A) → m ≡ ok a → g a ≡ ok x → g' a ≡ ok y)
    → (m >>= g') ≡ ok y
chain-onward (ok a) h k = k a refl h
chain-onward (err e) h k = cc

leb-le : (a b : ℕ) → leb a b ≡ true → a ≤ b
leb-le a b h = ground (arith, h)

abbrev found_inventory : Option Inventory → Result CloseoutStoreError (Option Inventory)
found_inventory o = ok o

same_found : (i j : Inventory) → found_inventory (some i) ≡ ok (some j) → i ≡ j
same_found i j h = cc

with_room : (test : Bool) (a b : ℕ) → test ≡ true → (not test || leb a b) ≡ true → a ≤ b
with_room test a b h k = ground (arith, h, k)

module _ (env : StoreEnv) (u : Association) where
  abbrev updated : Inventory → Inventory
  updated inv = record inv { records = renewed u inv.records }

  cursor-newer :
      (active : List String) (last : Option String) (f : Files)
      → has active u.intent.record_id ≡ true
      → cursor_ok env active last f ≡ ok tt
      → schema_ok env index_unknown u ≡ ok tt
      → cursor_ok env active last (apply (write_file u) f) ≡ ok tt
  cursor-newer active none f listed h schema = refl
  cursor-newer active (some id) f listed h schema =
      let (found, read, h1) = >>=-eq-ok (read_record_path env id f) _ h in
      let (a, is_a, h2) = >>=-eq-ok (required index_unknown found) _ h1 in
      let read_a = read ∙ ap ok (required-some index_unknown found a is_a) in
      elim (Bool-cases (str_eq u.intent.record_id id)) [
        | inl same ↦
            let there : has active id ≡ true =
              subst (λ x. has active x ≡ true) ((eq_iff u.intent.record_id id).0 same) listed in
            rw (path-newer env u id f a schema read_a)
              (listed_guard (has active id) (terminal (newer u id a).status) there)
        | inr other ↦ rw (path-elsewhere env u id f other) h
      ]

  -- The records of an inventory leave room for the new one.
  abbrev Roomy : Inventory → Type 0
  Roomy inv =
      (has inv.active u.intent.record_id ≡ true)
      × (ascending inv.active ≡ true)
      × (bytes_without env u.intent.record_id inv.records + env.encoded u ≤ max_active_bytes)

  records_of-newer :
      (active : List String) (last : Option String) (f : Files) (inv : Inventory)
      → schema_ok env index_unknown u ≡ ok tt
      → Roomy inv
      → records_of env active last f ≡ ok (some inv)
      → records_of env active last (apply (write_file u) f) ≡ ok (some (updated inv))
  unfolding records_of
  records_of-newer active last f inv schema roomy h =
      let (checked, rest) = >>-eq-ok (cursor_ok env active last f) _ h in
      let (recs, loaded, is_inv) = >>=-eq-ok (load env active 0 f) _ rest in
      let old : Inventory = record { active = active; last_record_id = last; records = recs } in
      let same : old ≡ inv = same_found old inv is_inv in
      let (listed, sorted, room) = subst Roomy (sym same) roomy in
      let by_key =
        subst (λ xs. ascending xs ≡ true) (sym (load-keys env u active 0 f recs loaded)) sorted in
      let smaller = bytes_of-renewed env u recs by_key in
      subst (λ i. records_of env active last (apply (write_file u) f) ≡ ok (some (updated i))) same
        (rw
          (
            cursor-newer active last f listed checked schema,
            load-newer env u active 0 0 f recs schema loaded (omega (arith, smaller, room)),
          )
          refl)

  inventory-newer :
      (f : Files) (inv : Inventory)
      → schema_ok env index_unknown u ≡ ok tt
      → Roomy inv
      → inventory env f ≡ ok (some inv)
      → inventory env (apply (write_file u) f) ≡ ok (some (updated inv))
  unfolding inventory valid_inventory apply
  inventory-newer f inv schema roomy h =
      let (there, h') = where_true f.root_exists _ inv h in
      if_true f.root_exists (ok none) there (
        chain-onward (read_json f.index) h' (λ i r1 h1.
          chain-onward (read_json f.cursor) h1 (λ c r2 h2.
            chain-onward (required index_unknown i) h2 (λ index r3 h3.
              chain-onward (required index_unknown c) h3 (λ cursor r4 h4.
                chain-onward (validate_index index) h4 (λ active r5 h5.
                  chain-onward (validate_cursor cursor) h5
                    (λ last r6 h6. records_of-newer active last f inv schema roomy h6)))))))

  inventory-load :
      (f : Files) (inv : Inventory)
      → inventory env f ≡ ok (some inv)
      → load env inv.active 0 f ≡ ok inv.records
  unfolding inventory valid_inventory records_of
  inventory-load f inv h =
      let (there, h0) = where_true f.root_exists _ inv h in
      let (i, r1, h1) = >>=-eq-ok (read_json f.index) _ h0 in
      let (c, r2, h2) = >>=-eq-ok (read_json f.cursor) _ h1 in
      let (index, r3, h3) = >>=-eq-ok (required index_unknown i) _ h2 in
      let (cursor, r4, h4) = >>=-eq-ok (required index_unknown c) _ h3 in
      let (active, r5, h5) = >>=-eq-ok (validate_index index) _ h4 in
      let (last, r6, h6) = >>=-eq-ok (validate_cursor cursor) _ h5 in
      let (r7, h7) = >>-eq-ok (cursor_ok env active last f) _ h6 in
      let (recs, loaded, is_inv) = >>=-eq-ok (load env active 0 f) _ h7 in
      let old : Inventory = record { active = active; last_record_id = last; records = recs } in
      subst (λ j. load env j.active 0 f ≡ ok j.records) (same_found old inv is_inv) loaded

  inventory-read :
      (f : Files) (inv : Inventory) (id : String)
      → inventory env f ≡ ok (some inv)
      → has inv.active id ≡ true
      → (a : Association) × (read_record_path env id f ≡ ok (some a))
  inventory-read f inv id h there =
      load-read env u inv.active 0 f inv.records id (inventory-load f inv h) there

  read_record-newer :
      (f : Files) (inv : Inventory) (id : String)
      → schema_ok env index_unknown u ≡ ok tt
      → Roomy inv
      → inventory env f ≡ ok (some inv)
      → read_record env id (apply (write_file u) f)
        ≡ (if str_eq u.intent.record_id id then ok (some u) else read_record env id f)
  unfolding read_record
  read_record-newer f inv id schema (listed, sorted, room) h =
      let h' = inventory-newer f inv schema (listed, sorted, room) h in
      elim (Bool-cases (str_eq u.intent.record_id id)) [
        | inl same ↦
            let there : has inv.active id ≡ true =
              subst (λ x. has inv.active x ≡ true) ((eq_iff u.intent.record_id id).0 same) listed in
            let (a, read) = inventory-read f inv id h there in
            rw (h', path-newer env u id f a schema read, there, same) refl
        | inr other ↦ rw (h', path-elsewhere env u id f other, other, h) refl
      ]

  -- What the checks before a write say of a listed record.
  may_write-Roomy :
      (f : Files) (inv : Inventory)
      → inventory env f ≡ ok (some inv)
      → has inv.active u.intent.record_id ≡ true
      → may_write env u f ≡ ok tt
      → (schema_ok env index_unknown u ≡ ok tt) × Roomy inv
  unfolding may_write
  may_write-Roomy f inv h listed fine =
      let (schema, h1) = >>-eq-ok (schema_ok env record_invalid u) _ fine in
      let (size, h2) = >>-eq-ok (sized env u) _ h1 in
      let (found, read, h3) = >>=-eq-ok (inventory env f) _ h2 in
      let (inv', is_inv, h4) = >>=-eq-ok (required record_unknown found) _ h3 in
      let (there, room) = >>-eq-ok (known env record_unknown u f inv') _ h4 in
      let same : inv' ≡ inv =
        same_found inv' inv
          (ap ok (sym (required-some record_unknown found inv' is_inv)) ∙ sym read ∙ h) in
      let room' = subst (λ i. room_for env u i ≡ ok tt) same room in
      (
        raised_as-other env u record_invalid index_unknown _ schema,
        (
          listed,
          (inventory-Listing env f inv h).sorted,
          with_room (has inv.active u.intent.record_id) _ _ listed (guard-eq-ok _ _ room'),
        ),
      )

  written_if-updates :
      (r : Result CloseoutStoreError (Unit {0})) (f : Files) (inv : Inventory) (id : String)
      → may_write env u f ≡ r
      → inventory env f ≡ ok (some inv)
      → has inv.active u.intent.record_id ≡ true
      → read_record env id (apply_all (written_if env r u f).0 f) ≡ (
          if is_ok (written_if env r u f).1 && str_eq u.intent.record_id id
          then ok (some u)
          else read_record env id f)
  unfolding apply_all
  written_if-updates (err e) f inv id fine h listed = refl
  written_if-updates (ok tt) f inv id fine h listed =
      let (schema, roomy) = may_write-Roomy f inv h listed fine in
      let (a, read) = inventory-read f inv u.intent.record_id h listed in
      rw (path-newer env u u.intent.record_id f a schema read)
        (read_record-newer f inv id schema roomy h)

  -- Where the files read and the record is listed: a write that succeeds gives the record to the readers of its
  -- identifier and leaves what the readers of any other identifier get, and a write that fails leaves what all
  -- readers get.
  pub write_record-updates :
      (f : Files) (inv : Inventory) (id : String)
      → inventory env f ≡ ok (some inv)
      → has inv.active u.intent.record_id ≡ true
      → read_record env id (apply_all (write_record env u f).0 f) ≡ (
          if is_ok (write_record env u f).1 && str_eq u.intent.record_id id
          then ok (some u)
          else read_record env id f)
  unfolding write_record
  write_record-updates f inv id h listed =
      written_if-updates (may_write env u f) f inv id refl h listed
