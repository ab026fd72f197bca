-- ===== src/Closeout/Reserve.antt =====
-- `reserve` of src/ei/closeout_store.py, write by write: the list names a record before its file is written.
use portable_external_intell.Prelude.{
  >>-eq-ok, >>=-eq-ok, Bool, List, Option, Result, String, [], ap, arith, eq_refl, err, false,
  guard, guard-eq-ok, has, if_elim, if_split, if◌then◌else◌, inr, is_some, leb, length, lookup, ltb,
  none, not, ok, refl, some, str_eq, subst, sym, true, ◌+◌, ◌||◌, ◌∙◌, ◌∷◌, ◌≡◌,
}
use portable_external_intell.Capture.Receipt.{sorted_add}
use portable_external_intell.Capture.Merging.{has-sorted_add}
use portable_external_intell.Closeout.Record.{Association, record_id_ok}
use portable_external_intell.Closeout.Shape.{is_none}
use portable_external_intell.Closeout.Files.{
  CloseoutStoreError, Files, Inventory, StoreEnv, capacity, check_record, holds, index_unknown,
  inventory, max_active, max_active_bytes, max_index_bytes, read_json, read_record_path,
  record_exists, record_invalid, required, schema_ok,
}
use portable_external_intell.Closeout.Store.{
  admit, advance_cursor, advanced_if, apply, apply_all, bytes_of, index_bytes, index_of, make_root,
  may_reserve, opening, reserve, reserve_from, reserve_if, write_file, write_index,
}
use portable_external_intell.Closeout.Reading.{
  Listing, inventory-Listing, read_json-none, required-some,
}
use portable_external_intell.Closeout.Guarded.{
  Guarded, Guarded-append, cursor-Preserved, file-Preserved, index-Preserved, root-Preserved,
}
use portable_external_intell.Closeout.Writes.{same_index}

neither : (a b : Bool) → (a || b) ≡ false → a ≡ false
neither a b h = ground (arith, h)

not_both : {A : Type 0} (o : Option A) (a : A) → o ≡ none → ¬ (o ≡ some a)
not_both o a h k = cc

not-true : (b : Bool) → not b ≡ true → b ≡ false
not-true b h = ground (arith, h)

or_right : (a b : Bool) → b ≡ true → (a || b) ≡ true
or_right a b h = ground (arith, h)

never_none :
    (test : Bool) (a : Association)
    → ¬ ((if test then ok (some a) else err index_unknown) ≡ ok none)
never_none true a h = cc
never_none false a h = cc

else_branch :
    {A : Type 0} (test : Bool) (m : Result CloseoutStoreError A) (a : A)
    → (if test then err record_exists else m) ≡ ok a
    → m ≡ ok a
else_branch true m a h = cc
else_branch false m a h = h

same_active :
    {A : Type 0} (xs ys : A) → ◌≡◌ {A = Result CloseoutStoreError A} (ok ys) (ok xs) → xs ≡ ys
same_active xs ys h = cc

-- What an admission found: no record by the name, and a list that gets it.
record Admitted (id : String) (f : Files) (active : List String) : Type 0 where
  pub inv : Inventory
  pub listing : Listing f inv
  pub absent : lookup id f.records ≡ none
  pub grown : active ≡ sorted_add id inv.active

module _ (env : StoreEnv) where
  opening-Guarded : (f : Files) → Guarded f (opening f)
  unfolding apply
  opening-Guarded f = if_elim (Guarded f) f.root_exists tt (
      if_split (Guarded f) (is_some f.index || is_some f.cursor)
        (λ some_list. (root-Preserved f, tt))
        (λ no_list. (
          root-Preserved f,
          (
            index-Preserved (index_of []) (apply make_root f) (λ id a at (i, file, there). absurd (
                not_both f.index (holds i)
                  (is_none f.index (neither (is_some f.index) (is_some f.cursor) no_list)) file)),
            (cursor-Preserved _ _, tt),
          ),
        )))

  check_record-none :
      (id : String) (found : Option Association)
      → check_record env id found ≡ ok none
      → found ≡ none
  check_record-none id none h = refl
  check_record-none id (some a) h =
      let (schema, name) = >>-eq-ok (schema_ok env index_unknown a) _ h in
      absurd (never_none (str_eq a.intent.record_id id) a name)

  read_record_path-none :
      (id : String) (f : Files) → read_record_path env id f ≡ ok none → lookup id f.records ≡ none
  unfolding read_record_path
  read_record_path-none id f h =
      let (checked, read) = >>-eq-ok (guard (record_id_ok id) record_invalid) _ h in
      let (found, json, rest) = >>=-eq-ok (read_json (lookup id f.records)) _ read in
      read_json-none (lookup id f.records)
        (subst (λ o. read_json (lookup id f.records) ≡ ok o) (check_record-none id found rest) json)

  admit-Admitted :
      (a : Association) (f : Files) (active : List String)
      → admit env a f ≡ ok active
      → Admitted a.intent.record_id f active
  unfolding admit
  admit-Admitted a f active h =
      let (found, read, h1) = >>=-eq-ok (inventory env f) _ h in
      let (inv, some_inv, h2) = >>=-eq-ok (required index_unknown found) _ h1 in
      let (old, path, h3) =
        >>=-eq-ok
          (if has inv.active a.intent.record_id
            then err record_exists
            else read_record_path env a.intent.record_id f)
          _ h2 in
      let (fresh, h4) = >>-eq-ok (guard (not (is_some old)) record_exists) _ h3 in
      let (few, h5) = >>-eq-ok (guard (ltb (length inv.active) max_active) capacity) _ h4 in
      let (room, h6) =
        >>-eq-ok (guard (leb (bytes_of env inv.records + env.encoded a) max_active_bytes) capacity)
          _ h5 in
      let (short, same) =
        >>-eq-ok
          (guard (leb (index_bytes (sorted_add a.intent.record_id inv.active)) max_index_bytes)
            capacity)
          (ok (sorted_add a.intent.record_id inv.active)) {out = active} h6 in
      let gone =
        is_none old
          (not-true (is_some old) (guard-eq-ok (not (is_some old)) record_exists fresh)) in
      record {
        inv = inv;
        listing =
            inventory-Listing env f inv
              (read ∙ ap ok (required-some index_unknown found inv some_inv));
        absent = read_record_path-none a.intent.record_id f (
            subst (λ o. read_record_path env a.intent.record_id f ≡ ok o) gone
              (else_branch (has inv.active a.intent.record_id) _ old path));
        grown = same_active active (sorted_add a.intent.record_id inv.active) same;
      }

  listed-Guarded :
      (a : Association) (f : Files) (active : List String)
      → Admitted a.intent.record_id f active
      → Guarded f (write_index (index_of active) ∷ write_file a ∷ [])
  unfolding apply
  listed-Guarded a f active admitted =
      let id = a.intent.record_id in
      (
        index-Preserved (index_of active) f (λ j b at (i, file, there).
            let e : i ≡ admitted.listing.index =
              same_index i admitted.listing.index (sym file ∙ admitted.listing.file) in
            inr (
              rw (admitted.grown, has-sorted_add id j admitted.inv.active)
                (or_right (str_eq id j) _ (
                  subst (λ xs. has xs j ≡ true) (ap (λ x. x.active) e ∙ admitted.listing.same)
                    there)))),
        (
          file-Preserved a (apply (write_index (index_of active)) f)
              (inr (
                index_of active,
                refl,
                rw (admitted.grown, has-sorted_add id id admitted.inv.active, eq_refl id) refl,
              ))
              (λ c at. absurd (not_both (lookup id f.records) (holds c) admitted.absent at)),
          tt,
        ),
      )

  reserve_from-Guarded :
      (r : Result CloseoutStoreError (List String)) (a : Association) (f : Files)
      → admit env a (apply_all (opening f) f) ≡ r
      → Guarded f (reserve_from env r a (opening f) f).0
  reserve_from-Guarded (err e) a f h = opening-Guarded f
  reserve_from-Guarded (ok active) a f h =
      Guarded-append (opening f) _ f (opening-Guarded f)
        (listed-Guarded a (apply_all (opening f) f) active (admit-Admitted a _ active h))

  reserve_if-Guarded :
      (r : Result CloseoutStoreError (Unit {0})) (a : Association) (f : Files)
      → Guarded f (reserve_if env r a f).0
  reserve_if-Guarded (err e) a f = tt
  reserve_if-Guarded (ok tt) a f = reserve_from-Guarded _ a f refl

  pub reserve-Guarded : (a : Association) (f : Files) → Guarded f (reserve env a f).0
  unfolding reserve
  reserve-Guarded a f = reserve_if-Guarded (may_reserve env a) a f

  advanced_if-Guarded :
      (r : Result CloseoutStoreError Inventory) (id : String) (f : Files)
      → Guarded f (advanced_if r id f).0
  advanced_if-Guarded (err e) id f = tt
  advanced_if-Guarded (ok inv) id f = (cursor-Preserved _ _, tt)

  pub advance-Guarded : (id : String) (f : Files) → Guarded f (advance_cursor env id f).0
  unfolding advance_cursor
  advance-Guarded id f = advanced_if-Guarded _ id f
