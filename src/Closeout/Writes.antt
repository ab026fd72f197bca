-- ===== src/Closeout/Writes.antt =====
-- The operations of `CloseoutStore` in src/ei/closeout_store.py, write by write.
use portable_external_intell.Prelude.{
  >>-eq-ok, >>=-eq-ok, Bool, Bool-cases, List, Result, String, [], ap, arith, eq_iff, err, false,
  guard, guard-eq-ok, has, if_elim, inl, inr, lookup-insert, ok, refl, some, str_eq, subst, sym,
  true, ◌||◌, ◌∙◌, ◌∷◌, ◌≡◌, ◌⊎◌,
}
use portable_external_intell.Closeout.Record.{Association}
use portable_external_intell.Closeout.Shape.{Ruled}
use portable_external_intell.Closeout.Files.{
  CloseoutStoreError, Files, Index, Inventory, StoreEnv, holds, index_unknown, inventory,
  record_invalid, record_unknown, required, schema_ok, terminal,
}
use portable_external_intell.Closeout.Store.{
  apply, index_of, known, may_write, room_for, sized, without, write_file, write_index,
  write_record, written_if,
}
use portable_external_intell.Closeout.Finish.{finish, finished_if, finishing, may_finish}
use portable_external_intell.Closeout.Reading.{
  Found, Listing, inventory-Listing, required-some, schema_ok-Ruled,
}
use portable_external_intell.Closeout.Follows.{Follows, terminal-rank}
use portable_external_intell.Closeout.Guarded.{
  Guarded, Preserved, cursor-Preserved, file-Preserved, index-Preserved,
}

true-or : (a b : Bool) → (a || b) ≡ true → (b ≡ true) ⊎ (a ≡ true)
true-or a true h = inl refl
true-or a false h = inr (ground (arith, h))

same_record : (c b : Association) → some (holds c) ≡ some (holds b) → c ≡ b
same_record c b h = cc

pub same_index : (i j : Index) → some (holds i) ≡ some (holds j) → i ≡ j
same_index i j h = cc

written_status :
    (u a : Association)
    → terminal u.status ≡ true
    → some (holds u) ≡ some (holds a)
    → terminal a.status ≡ true
written_status u a done h = subst (λ r. terminal r.status ≡ true) (same_record u a h) done

module _ (env : StoreEnv) where
  -- A found record that is written again, further on.
  pub again-Preserved :
      (id : String) (f : Files) (c u : Association)
      → Found env id f c
      → Follows c u
      → Preserved f (apply (write_file u) f)
  again-Preserved id f c u found grows =
      let held = found.held in
      let named : u.intent.record_id ≡ id = ap (λ i. i.record_id) grows.intent ∙ held.named in
      file-Preserved u f
        (elim (true-or (has found.inv.active id) (terminal c.status) found.listed) [
          | inl done ↦ inl (terminal-rank c.status u.status grows.rank_up done)
          | inr there ↦
              inr (found.listing.index, found.listing.file, rw (named, found.listing.same) there)
        ])
        (λ b at. subst (λ r. Follows r u) (same_record c b (sym held.file ∙ rw named at at)) grows)

  may_write-Ruled : (a : Association) (f : Files) → may_write env a f ≡ ok tt → Ruled a
  unfolding may_write
  may_write-Ruled a f h =
      let (schema, rest) = >>-eq-ok (schema_ok env record_invalid a) _ h in
      schema_ok-Ruled env record_invalid a schema

  written_if-Guarded :
      (r : Result CloseoutStoreError (Unit {0})) (u : Association) (f : Files)
      → (r ≡ ok tt → Preserved f (apply (write_file u) f))
      → Guarded f (written_if env r u f).0
  written_if-Guarded (err e) u f h = tt
  written_if-Guarded (ok tt) u f h = (h refl, tt)

  pub write_record-Guarded :
      (id : String) (f : Files) (c u : Association)
      → Found env id f c
      → (Ruled u → Follows c u)
      → Guarded f (write_record env u f).0
  unfolding write_record
  write_record-Guarded id f c u found grows =
      written_if-Guarded (may_write env u f) u f
        (λ fine. again-Preserved id f c u found (grows (may_write-Ruled u f fine)))

  -- What a list keeps when one name is taken from it.
  has-without :
      (id j : String) (xs : List String)
      → str_eq id j ≡ false
      → has xs j ≡ true
      → has (without id xs) j ≡ true
  unfolding without
  has-without id j [] other h = h
  has-without id j (x ∷ xs) other h =
      let below = has-without id j xs other in
      ground (arith, below, eq_iff x id, eq_iff x j, eq_iff id j)

  may_finish-said :
      (a : Association) (f : Files) (inv : Inventory)
      → may_finish env a f ≡ ok inv
      → (terminal a.status ≡ true) × (inventory env f ≡ ok (some inv))
  unfolding may_finish
  may_finish-said a f inv h =
      let (done, h1) = >>-eq-ok (guard (terminal a.status) record_invalid) _ h in
      let (schema, h2) = >>-eq-ok (schema_ok env record_invalid a) _ h1 in
      let (size, h3) = >>-eq-ok (sized env a) _ h2 in
      let (found, read, h4) = >>=-eq-ok (inventory env f) _ h3 in
      let (inv', some_inv, h5) = >>=-eq-ok (required index_unknown found) _ h4 in
      let (there, h6) = >>-eq-ok (known env record_unknown a f inv') _ h5 in
      let (room, same) = >>-eq-ok (room_for env a inv') (ok inv') {out = inv} h6 in
      (
        guard-eq-ok (terminal a.status) record_invalid done,
        read ∙ ap ok (required-some index_unknown found inv (some_inv ∙ same)),
      )

  unlisted-Preserved :
      (u : Association) (f : Files) (inv : Inventory)
      → terminal u.status ≡ true
      → Listing f inv
      → Preserved (apply (write_file u) f) (
          apply
            (write_index (index_of (without u.intent.record_id inv.active)))
            (apply (write_file u) f))
  unfolding apply
  unlisted-Preserved u f inv done listing =
      index-Preserved (index_of (without u.intent.record_id inv.active)) (apply (write_file u) f)
        (λ j a at (i, file, there). elim (Bool-cases (str_eq u.intent.record_id j)) [
          | inl same ↦ inl (written_status u a done (rw (lookup-insert, same) at at))
          | inr other ↦
              let e : i ≡ listing.index = same_index i listing.index (sym file ∙ listing.file) in
              inr (
                has-without u.intent.record_id j inv.active other
                  (subst (λ xs. has xs j ≡ true) (ap (λ x. x.active) e ∙ listing.same) there))
        ])

  finishing-Guarded :
      (u : Association) (f : Files) (inv : Inventory)
      → Preserved f (apply (write_file u) f)
      → terminal u.status ≡ true
      → Listing f inv
      → Guarded f (finishing u inv)
  unfolding finishing
  finishing-Guarded u f inv kept done listing = (
    kept,
    if_elim (λ ws. Guarded (apply (write_file u) f) ws) (has inv.active u.intent.record_id)
        (unlisted-Preserved u f inv done listing, (cursor-Preserved _ _, tt))
        (cursor-Preserved _ _, tt),
  )

  finished_if-Guarded :
      (r : Result CloseoutStoreError Inventory) (u : Association) (f : Files)
      → ((inv : Inventory) → r ≡ ok inv → Guarded f (finishing u inv))
      → Guarded f (finished_if env r u f).0
  finished_if-Guarded (err e) u f h = tt
  finished_if-Guarded (ok inv) u f h = h inv refl

  pub finish-Guarded :
      (id : String) (f : Files) (c u : Association)
      → Found env id f c
      → Follows c u
      → Guarded f (finish env u f).0
  unfolding finish
  finish-Guarded id f c u found grows = finished_if-Guarded (may_finish env u f) u f (λ inv fine.
      let (done, read) = may_finish-said u f inv fine in
      finishing-Guarded u f inv (again-Preserved id f c u found grows) done
        (inventory-Listing env f inv read))
