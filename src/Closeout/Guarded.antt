-- ===== src/Closeout/Guarded.antt =====
-- What each write of src/ei/closeout_store.py keeps of the files, wherever a crash cuts the writes of an
-- operation: no record that is not finished is unlisted, and every record goes on as `Follows` says.
use portable_external_intell.Prelude.{
  Bool-cases, List, String, [], eq_iff, has, inl, inr, lookup, lookup-insert, refl, some, str_eq,
  subst, suc, take, true, zero, ℕ, ◌++◌, ◌∷◌, ◌≡◌, ◌⊎◌,
}
use portable_external_intell.Closeout.Record.{Association}
use portable_external_intell.Closeout.Files.{Cursor, Files, Index, holds, terminal}
use portable_external_intell.Closeout.Store.{
  Write, apply, apply_all, make_root, write_cursor, write_file, write_index,
}
use portable_external_intell.Closeout.Follows.{Follows, Follows-refl, Follows-trans}

-- The index file lists the record.
abbrev pub InIndex : Files → String → Type 0
InIndex f id = (i : Index) × (f.index ≡ some (holds i)) × (has i.active id ≡ true)

-- Every record that is not finished is listed.
abbrev pub AllListed : Files → Type 0
AllListed f =
    (id : String) (a : Association)
    → lookup id f.records ≡ some (holds a)
    → (terminal a.status ≡ true) ⊎ InIndex f id

pub record Preserved (f g : Files) : Type 0 where
  pub listed : AllListed f → AllListed g
  pub follows :
      (id : String) (a : Association)
      → lookup id f.records ≡ some (holds a)
      → (b : Association) × (lookup id g.records ≡ some (holds b)) × Follows a b

pub Preserved-refl : (f : Files) → Preserved f f
Preserved-refl f = record { listed = λ h. h; follows = λ id a h. (a, h, Follows-refl a) }

pub Preserved-trans : (f g h : Files) → Preserved f g → Preserved g h → Preserved f h
Preserved-trans f g h p q = record {
  listed = λ l. q.listed (p.listed l);
  follows = λ id a e.
      let (b, at_b, ab) = p.follows id a e in
      let (c, at_c, bc) = q.follows id b at_b in (c, at_c, Follows-trans a b c ab bc);
}

-- Each write of a sequence keeps the files, behind those before it.
abbrev pub Guarded : Files → List Write → Type 0
Guarded f [] = Unit
Guarded f (w ∷ ws) = Preserved f (apply w f) × Guarded (apply w f) ws

pub Guarded-crash :
    (n : ℕ) (ws : List Write) (f : Files) → Guarded f ws → Preserved f (apply_all (take n ws) f)
unfolding take apply_all
Guarded-crash zero ws f h = Preserved-refl f
Guarded-crash (suc n) [] f h = Preserved-refl f
Guarded-crash (suc n) (w ∷ ws) f (h, k) =
    Preserved-trans f (apply w f) _ h (Guarded-crash n ws (apply w f) k)

pub Guarded-append :
    (xs ys : List Write) (f : Files)
    → Guarded f xs
    → Guarded (apply_all xs f) ys
    → Guarded f (xs ++ ys)
unfolding apply_all
Guarded-append [] ys f h k = k
Guarded-append (x ∷ xs) ys f (h, h') k = (h, Guarded-append xs ys (apply x f) h' k)

-- A write that leaves the records, and takes nothing from the list but finished ones.
pub index-Preserved :
    (i : Index) (f : Files)
    → ((id : String) (a : Association)
        → lookup id f.records ≡ some (holds a)
        → InIndex f id
        → (terminal a.status ≡ true) ⊎ (has i.active id ≡ true))
    → Preserved f (apply (write_index i) f)
unfolding apply
index-Preserved i f keeps = record {
  listed = λ l id a h. elim (l id a h) [
    | inl done ↦ inl done
    | inr there ↦ elim (keeps id a h there) [
      | inl done ↦ inl done
      | inr still ↦ inr (i, refl, still)
    ]
  ];
  follows = λ id a h. (a, h, Follows-refl a);
}

pub cursor-Preserved : (c : Cursor) (f : Files) → Preserved f (apply (write_cursor c) f)
unfolding apply
cursor-Preserved c f = record { listed = λ l. l; follows = λ id a h. (a, h, Follows-refl a) }

pub root-Preserved : (f : Files) → Preserved f (apply make_root f)
unfolding apply
root-Preserved f = record { listed = λ l. l; follows = λ id a h. (a, h, Follows-refl a) }

-- A record written at a place of its own, listed or finished, that follows what was there.
pub file-Preserved :
    (u : Association) (f : Files)
    → ((terminal u.status ≡ true) ⊎ InIndex f u.intent.record_id)
    → ((c : Association) → lookup u.intent.record_id f.records ≡ some (holds c) → Follows c u)
    → Preserved f (apply (write_file u) f)
unfolding apply
file-Preserved u f own grows = record {
  listed = λ l id a h. elim (Bool-cases (str_eq u.intent.record_id id)) [
    | inl same ↦
        let here = (eq_iff u.intent.record_id id).0 same in
        let e = rw (lookup-insert, same) at h in
        let e' : u ≡ a = cc in
        subst (λ r. (terminal r.status ≡ true) ⊎ InIndex f id) e'
          (subst (λ j. (terminal u.status ≡ true) ⊎ InIndex f j) here own)
    | inr other ↦ l id a (rw (lookup-insert, other) at h)
  ];
  follows = λ id a h. elim (Bool-cases (str_eq u.intent.record_id id)) [
    | inl same ↦
        let here = (eq_iff u.intent.record_id id).0 same in
        (u, rw (lookup-insert, same) refl, grows a (rw here h))
    | inr other ↦ (a, rw (lookup-insert, other) h, Follows-refl a)
  ];
}
