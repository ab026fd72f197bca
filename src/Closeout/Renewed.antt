-- ===== src/Closeout/Renewed.antt =====
-- The loop over the active records of src/ei/closeout_store.py, behind the write of a record.
use portable_external_intell.Prelude.{
  >>-eq-ok, >>=-eq-ok, Bool, Bool-cases, List, Result, String, [], ap, arith, eq_iff, err, false,
  guard, has, if◌then◌else◌, inl, inr, leb, lookup-insert, ok, refl, some, str_eq, subst, sym, true,
  ℕ, ◌+◌, ◌||◌, ◌∙◌, ◌∷◌, ◌≡◌, ◌≤◌,
}
use portable_external_intell.Closeout.Record.{Association, ascending, record_id_ok}
use portable_external_intell.Closeout.Order.{ascending-once}
use portable_external_intell.Closeout.Files.{
  CloseoutStoreError, Files, StoreEnv, index_unknown, load, max_active_bytes, raised_as,
  read_record_path, record_invalid, required, schema_ok,
}
use portable_external_intell.Closeout.Store.{apply, bytes_of, bytes_without, write_file}
use portable_external_intell.Closeout.Reading.{required-some}

-- The record by a name, behind a write.
abbrev pub newer : Association → String → Association → Association
newer u id a = if str_eq u.intent.record_id id then u else a

abbrev pub renewed : Association → List (String × Association) → List (String × Association)
renewed u [] = []
renewed u ((id, a) ∷ rest) = (id, newer u id a) ∷ renewed u rest

abbrev pub keys : List (String × Association) → List String
keys [] = []
keys ((id, a) ∷ rest) = id ∷ keys rest

abbrev ok_list :
    List (String × Association) → Result CloseoutStoreError (List (String × Association))
ok_list xs = ok xs

same_list : (xs ys : List (String × Association)) → ok_list xs ≡ ok ys → xs ≡ ys
same_list xs ys h = cc

leb-true : (a b : ℕ) → a ≤ b → leb a b ≡ true
leb-true a b h = ground (arith, h)

pub listed_guard : (a b : Bool) → a ≡ true → guard (a || b) index_unknown ≡ ok tt
listed_guard true b h = refl
listed_guard false b h = cc

module _ (env : StoreEnv) (u : Association) where
  pub raised_as-other :
      (d e : CloseoutStoreError) (r : Result String (Unit {0}))
      → raised_as d r ≡ ok tt
      → raised_as e r ≡ ok tt
  raised_as-other d e (ok t) h = refl
  raised_as-other d e (err x) h = cc

  pub path-elsewhere :
      (id : String) (f : Files)
      → str_eq u.intent.record_id id ≡ false
      → read_record_path env id (apply (write_file u) f) ≡ read_record_path env id f
  unfolding read_record_path apply
  path-elsewhere id f other = rw (lookup-insert, other) refl

  pub path-newer :
      (id : String) (f : Files) (a : Association)
      → schema_ok env index_unknown u ≡ ok tt
      → read_record_path env id f ≡ ok (some a)
      → read_record_path env id (apply (write_file u) f) ≡ ok (some (newer u id a))
  unfolding read_record_path apply
  path-newer id f a schema h = elim (Bool-cases (str_eq u.intent.record_id id)) [
    | inl same ↦
        let (fine, rest) = >>-eq-ok (guard (record_id_ok id) record_invalid) _ h in
        rw (lookup-insert, fine, same, schema, same) refl
    | inr other ↦ rw (lookup-insert, other) h
  ]

  -- The parts of a loop that went over a first record.
  record Loaded (id : String) (ids : List String) (t : ℕ) (f : Files)
      (recs : List (String × Association)) : Type 0 where
    first : Association
    more : List (String × Association)
    read : read_record_path env id f ≡ ok (some first)
    rest : load env ids (t + env.encoded first) f ≡ ok more
    same : (id, first) ∷ more ≡ recs

  load-Loaded :
      (id : String) (ids : List String) (t : ℕ) (f : Files) (recs : List (String × Association))
      → load env (id ∷ ids) t f ≡ ok recs
      → Loaded id ids t f recs
  unfolding load
  load-Loaded id ids t f recs h =
      let (found, read, h1) = >>=-eq-ok (read_record_path env id f) _ h in
      let (a, is_a, h2) = >>=-eq-ok (required index_unknown found) _ h1 in
      let (room, h3) =
        >>-eq-ok (guard (leb (t + env.encoded a) max_active_bytes) index_unknown) _ h2 in
      let (more, rest, same) = >>=-eq-ok (load env ids (t + env.encoded a) f) _ h3 in
      record {
        first = a;
        more = more;
        read = read ∙ ap ok (required-some index_unknown found a is_a);
        rest = rest;
        same = same_list ((id, a) ∷ more) recs same;
      }

  pub load-newer :
      (ids : List String) (t t' : ℕ) (f : Files) (recs : List (String × Association))
      → schema_ok env index_unknown u ≡ ok tt
      → load env ids t f ≡ ok recs
      → t' + bytes_of env (renewed u recs) ≤ max_active_bytes
      → load env ids t' (apply (write_file u) f) ≡ ok (renewed u recs)
  unfolding load bytes_of
  load-newer [] t t' f recs schema h room =
      let same : [] ≡ recs = same_list [] recs h in
      subst (λ xs. ok_list [] ≡ ok (renewed u xs)) same refl
  load-newer (id ∷ ids) t t' f recs schema h room =
      let l = load-Loaded id ids t f recs h in
      let room' =
        subst (λ xs. t' + bytes_of env (renewed u xs) ≤ max_active_bytes) (sym l.same) room in
      let a = newer u id l.first in
      let below =
        load-newer ids (t + env.encoded l.first) (t' + env.encoded a) f l.more schema l.rest
          (omega (arith, room')) in
      subst (λ xs. load env (id ∷ ids) t' (apply (write_file u) f) ≡ ok (renewed u xs)) l.same
        (rw
          (
            path-newer id f l.first schema l.read,
            leb-true (t' + env.encoded a) max_active_bytes (omega (arith, room')),
            below,
          )
          refl)

  pub load-keys :
      (ids : List String) (t : ℕ) (f : Files) (recs : List (String × Association))
      → load env ids t f ≡ ok recs
      → keys recs ≡ ids
  unfolding load
  load-keys [] t f recs h = ap keys (sym (same_list [] recs h))
  load-keys (id ∷ ids) t f recs h =
      let l = load-Loaded id ids t f recs h in
      subst (λ xs. keys xs ≡ id ∷ ids) l.same
        (ap (λ xs. id ∷ xs) (load-keys ids (t + env.encoded l.first) f l.more l.rest))

  pub load-read :
      (ids : List String) (t : ℕ) (f : Files) (recs : List (String × Association)) (id : String)
      → load env ids t f ≡ ok recs
      → has ids id ≡ true
      → (a : Association) × (read_record_path env id f ≡ ok (some a))
  load-read [] t f recs id h there = cc
  load-read (k ∷ ids) t f recs id h there =
      let l = load-Loaded k ids t f recs h in
      elim (Bool-cases (str_eq k id)) [
        | inl same ↦ (
          l.first,
          subst (λ x. read_record_path env x f ≡ ok (some l.first)) ((eq_iff k id).0 same) l.read,
        )
        | inr other ↦ load-read ids (t + env.encoded l.first) f l.more id l.rest (rw other at there)
      ]

  bytes_of-absent :
      (recs : List (String × Association))
      → has (keys recs) u.intent.record_id ≡ false
      → bytes_of env (renewed u recs) ≡ bytes_without env u.intent.record_id recs
  unfolding bytes_of bytes_without
  bytes_of-absent [] h = refl
  bytes_of-absent ((id, a) ∷ recs) h =
      let below = bytes_of-absent recs in
      ground (arith, h, below, eq_iff id u.intent.record_id, eq_iff u.intent.record_id id)

  pub bytes_of-renewed :
      (recs : List (String × Association))
      → ascending (keys recs) ≡ true
      → bytes_of env (renewed u recs) ≤ bytes_without env u.intent.record_id recs + env.encoded u
  unfolding bytes_of bytes_without
  bytes_of-renewed [] h = omega arith
  bytes_of-renewed ((id, a) ∷ recs) h =
      let (once, rest) = ascending-once id (keys recs) h in
      let below = bytes_of-renewed recs rest in
      elim (Bool-cases (str_eq u.intent.record_id id)) [
        | inl same ↦
            let e : u.intent.record_id ≡ id = (eq_iff u.intent.record_id id).0 same in
            let absent =
              bytes_of-absent recs (subst (λ x. has (keys recs) x ≡ false) (sym e) once) in
            ground (arith, same, absent, eq_iff id u.intent.record_id)
        | inr other ↦
            ground (arith, other, below, eq_iff id u.intent.record_id, eq_iff u.intent.record_id id)
      ]
