-- ===== src/Closeout/Reading.antt =====
-- What a reading of the closeout store that succeeded says of its files (src/ei/closeout_store.py).
use portable_external_intell.Prelude.{
  >>-eq-ok, >>=-eq-ok, Bool, List, Option, Result, String, ap, arith, eq_iff, err, false, guard,
  guard-eq-ok, has, if◌then◌else◌, lookup, none, ok, refl, some, str_eq, subst, true, ◌||◌, ◌∙◌,
  ◌≡◌,
}
use portable_external_intell.Closeout.Record.{Association, ascending}
use portable_external_intell.Closeout.Schema.{validate_association}
use portable_external_intell.Closeout.Shape.{Ruled, rules-Ruled}
use portable_external_intell.Closeout.Files.{
  CloseoutStoreError, Cursor, Document, Files, Index, Inventory, StoreEnv, check_record, cursor_ok,
  holds, index_unknown, inventory, load, raised_as, read_json, read_record_path, records_of,
  required, schema_ok, terminal, unreadable, valid_inventory, validate_cursor, validate_index,
}
use portable_external_intell.Closeout.Store.{listed_or_finished, read_listed, read_record}

read_json-eq-some :
    {A : Type 0} (d : Option (Document A)) (a : A) → read_json d ≡ ok (some a) → d ≡ some (holds a)
read_json-eq-some none a h = cc
read_json-eq-some (some unreadable) a h = cc
read_json-eq-some (some (holds b)) a h = cc

pub required-some :
    {A : Type 0} (e : CloseoutStoreError) (o : Option A) (a : A) → required e o ≡ ok a → o ≡ some a
required-some e none a h = cc
required-some e (some b) a h = cc

validate_index-same :
    (i : Index) (ids : List String)
    → validate_index i ≡ ok ids
    → (i.active ≡ ids) × (ascending ids ≡ true)
validate_index-same i ids h =
    let same : i.active ≡ ids = ground arith in
    let sorted : ascending i.active ≡ true = ground arith in
    (same, subst (λ xs. ascending xs ≡ true) same sorted)

pub read_json-none : {A : Type 0} (d : Option (Document A)) → read_json d ≡ ok none → d ≡ none
read_json-none none h = refl
read_json-none (some unreadable) h = cc
read_json-none (some (holds b)) h = cc

raised_as-eq-ok :
    (e : CloseoutStoreError) (r : Result String (Unit {0})) → raised_as e r ≡ ok tt → r ≡ ok tt
raised_as-eq-ok e (ok tt) h = refl
raised_as-eq-ok e (err field) h = cc

named_record-same :
    (test : Bool) (b a : Association)
    → (if test then ok (some b) else err index_unknown) ≡ ok (some a)
    → (b ≡ a) × (test ≡ true)
named_record-same true b a h = (cc, refl)
named_record-same false b a h = cc

pub where_true :
    (test : Bool) (m : Result CloseoutStoreError (Option Inventory)) (inv : Inventory)
    → (if test then m else ok none) ≡ ok (some inv)
    → (test ≡ true) × (m ≡ ok (some inv))
where_true true m inv h = (refl, h)
where_true false m inv h = cc

-- The list of an inventory is that of the index file.
pub record Listing (f : Files) (inv : Inventory) : Type 0 where
  pub index : Index
  pub file : f.index ≡ some (holds index)
  pub same : index.active ≡ inv.active
  pub root : f.root_exists ≡ true
  pub sorted : ascending inv.active ≡ true

module _ (env : StoreEnv) where
  pub schema_ok-Ruled :
      (e : CloseoutStoreError) (a : Association) → schema_ok env e a ≡ ok tt → Ruled a
  unfolding validate_association
  schema_ok-Ruled e a h =
      let (most, last) =
        >>-eq-ok _ _ (raised_as-eq-ok e (validate_association env.forbidden a) h) in
      let (fields, rules) = >>-eq-ok _ _ most in rules-Ruled a rules

  -- A record that has been read: what its file holds.
  pub record Held (id : String) (f : Files) (a : Association) : Type 0 where
    pub file : lookup id f.records ≡ some (holds a)
    pub named : a.intent.record_id ≡ id
    pub ruled : Ruled a

  check_record-Held :
      (id : String) (found : Option Association) (a : Association)
      → check_record env id found ≡ ok (some a)
      → (found ≡ some a) × (a.intent.record_id ≡ id) × Ruled a
  check_record-Held id none a h = cc
  check_record-Held id (some b) a h =
      let (schema, name) = >>-eq-ok (schema_ok env index_unknown b) _ h in
      let (same, test) = named_record-same (str_eq b.intent.record_id id) b a name in
      let named = (eq_iff b.intent.record_id id).0 test in
      (
        ap some same,
        subst (λ r. r.intent.record_id ≡ id) same named,
        subst Ruled same (schema_ok-Ruled index_unknown b schema),
      )

  pub read_record_path-Held :
      (id : String) (f : Files) (a : Association)
      → read_record_path env id f ≡ ok (some a)
      → Held id f a
  unfolding read_record_path
  read_record_path-Held id f a h =
      let (checked, read) = >>-eq-ok _ _ h in
      let (found, json, same) = >>=-eq-ok (read_json (lookup id f.records)) _ read in
      let (here, named, ruled) = check_record-Held id found a same in
      record {
        file =
            read_json-eq-some (lookup id f.records) a
              (subst (λ o. read_json (lookup id f.records) ≡ ok o) here json);
        named = named;
        ruled = ruled;
      }

  records_of-same :
      (active : List String) (last : Option String) (f : Files) (inv : Inventory)
      → records_of env active last f ≡ ok (some inv)
      → active ≡ inv.active
  unfolding records_of
  records_of-same active last f inv h =
      let (checked, rest) = >>-eq-ok (cursor_ok env active last f) _ h in
      let (records, loaded, same) = >>=-eq-ok (load env active 0 f) _ rest in cc

  valid_inventory-same :
      (index : Index) (cursor : Cursor) (f : Files) (inv : Inventory)
      → valid_inventory env index cursor f ≡ ok (some inv)
      → (index.active ≡ inv.active) × (ascending inv.active ≡ true)
  unfolding valid_inventory
  valid_inventory-same index cursor f inv h =
      let (active, valid, rest) = >>=-eq-ok (validate_index index) _ h in
      let (last, valid_last, found) = >>=-eq-ok (validate_cursor cursor) _ rest in
      let (same, sorted) = validate_index-same index active valid in
      let here = records_of-same active last f inv found in
      (same ∙ here, subst (λ ids. ascending ids ≡ true) here sorted)

  pub inventory-Listing :
      (f : Files) (inv : Inventory) → inventory env f ≡ ok (some inv) → Listing f inv
  unfolding inventory
  inventory-Listing f inv h =
      let (there, h') = where_true f.root_exists _ inv h in
      let (i, read, h1) = >>=-eq-ok (read_json f.index) _ h' in
      let (c, read_c, h2) = >>=-eq-ok (read_json f.cursor) _ h1 in
      let (index, some_i, h3) = >>=-eq-ok (required index_unknown i) _ h2 in
      let (cursor, some_c, h4) = >>=-eq-ok (required index_unknown c) _ h3 in
      let i_is = required-some index_unknown i index some_i in
      record {
        index = index;
        file = read_json-eq-some f.index index (subst (λ o. read_json f.index ≡ ok o) i_is read);
        same = (valid_inventory-same index cursor f inv h4).0;
        root = there;
        sorted = (valid_inventory-same index cursor f inv h4).1;
      }

  -- What `read_record` found: a file that is listed or finished.
  pub record Found (id : String) (f : Files) (a : Association) : Type 0 where
    pub held : Held id f a
    pub inv : Inventory
    pub listing : Listing f inv
    pub listed : (has inv.active id || terminal a.status) ≡ true

  listed_or_finished-same :
      (id : String) (inv : Inventory) (found : Option Association) (a : Association)
      → listed_or_finished env id inv found ≡ ok (some a)
      → (found ≡ some a) × ((has inv.active id || terminal a.status) ≡ true)
  listed_or_finished-same id inv none a h = cc
  listed_or_finished-same id inv (some b) a h =
      let (test, same) =
        >>-eq-ok (guard (has inv.active id || terminal b.status) index_unknown) (ok (some b))
          {out = some a} h in
      let e : b ≡ a = cc in
      (
        ap some e,
        subst (λ r. (has inv.active id || terminal r.status) ≡ true) e
            (guard-eq-ok (has inv.active id || terminal b.status) index_unknown test),
      )

  read_listed-Found :
      (id : String) (f : Files) (a : Association) (found : Option Inventory)
      → inventory env f ≡ ok found
      → read_listed env id f found ≡ ok (some a)
      → Found id f a
  read_listed-Found id f a none read h = cc
  read_listed-Found id f a (some inv) read h =
      let (value, path, rest) = >>=-eq-ok (read_record_path env id f) _ h in
      let (same, listed) = listed_or_finished-same id inv value a rest in
      record {
        held =
            read_record_path-Held id f a (subst (λ o. read_record_path env id f ≡ ok o) same path);
        inv = inv;
        listing = inventory-Listing f inv read;
        listed = listed;
      }

  pub read_record-Found :
      (id : String) (f : Files) (a : Association)
      → read_record env id f ≡ ok (some a)
      → Found id f a
  unfolding read_record
  read_record-Found id f a h =
      let (found, read, rest) = >>=-eq-ok (inventory env f) _ h in
      read_listed-Found id f a found read rest
