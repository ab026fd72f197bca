-- ===== src/Closeout/Finish.antt =====
-- `finish` of `CloseoutStore` in src/ei/closeout_store.py: a finished record is written, taken from the list
-- of active ones, and named by the cursor, in this order.
use portable_external_intell.Prelude.{
  List, Result, [], err, guard, has, if◌then◌else◌, ok, opt_eq, some, str_eq, ◌>>=◌, ◌>>◌, ◌∷◌,
}
use portable_external_intell.Closeout.Record.{Association}
use portable_external_intell.Closeout.Equal.{association_eq}
use portable_external_intell.Closeout.Files.{
  CloseoutStoreError, Files, Inventory, StoreEnv, index_unknown, inventory, read_record_path,
  record_invalid, record_unknown, required, schema_ok, terminal,
}
use portable_external_intell.Closeout.Store.{
  Done, Write, apply_all, cursor_of, index_of, known, read_cursor, room_for, sized, without,
  write_cursor, write_file, write_index,
}

unfoldable pub finishing : Association → Inventory → List Write
finishing a inv =
    let id = a.intent.record_id in
    let last = write_cursor (cursor_of (some id)) ∷ [] in
    write_file a
    ∷ (if has inv.active id then write_index (index_of (without id inv.active)) ∷ last else last)

module _ (env : StoreEnv) where
  unfoldable pub may_finish : Association → Files → Result CloseoutStoreError Inventory
  may_finish a f =
      guard (terminal a.status) record_invalid
      >> (schema_ok env record_invalid a
          >> (sized env a
              >> (inventory env f >>= λ found. required index_unknown found >>= λ inv.
                  known env record_unknown a f inv >> (room_for env a inv >> ok inv))))

  -- The record and the cursor are read back and compared.
  unfoldable pub confirmed : Association → Files → Result CloseoutStoreError Association
  confirmed a f = read_record_path env a.intent.record_id f >>= λ found.
      guard (opt_eq association_eq found (some a)) index_unknown
      >> (read_cursor f >>= λ last.
          guard (opt_eq str_eq last (some a.intent.record_id)) index_unknown >> ok a)

  abbrev pub finished_if :
      Result CloseoutStoreError Inventory → Association → Files → Done Association
  finished_if (err e) a f = ([], err e)
  finished_if (ok inv) a f =
      let writes = finishing a inv in (writes, confirmed a (apply_all writes f))

  unfoldable pub finish : Association → Files → Done Association
  finish a f = finished_if (may_finish a f) a f
