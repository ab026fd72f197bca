-- ===== src/Closeout/Tests.antt =====
-- Runs of the closeout store of src/ei/closeout_store.py.
use portable_external_intell.Prelude.{
  String, [], arith, err, false, if◌then◌else◌, inl, insert, lookup, none, ok, refl, some, str_eq,
  take, true, ◌&&◌, ◌∷◌, ◌≡◌, ◌⊎◌,
}
use portable_external_intell.Capture.Receipt.{sorted_add}
use portable_external_intell.Capture.Record.{hash_ok}
use portable_external_intell.Queue.Item.{SpoolRef}
use portable_external_intell.Closeout.Record.{
  Association, answer_no, ascending, hex_id, prepared, preparing, reason_code_ok,
}
use portable_external_intell.Closeout.Schema.{
  fields_ok, status_rules, target_ids_ok, validate_association, witness_ok,
}
use portable_external_intell.Closeout.Files.{
  Files, Inventory, StoreEnv, holds, index_unknown, inventory, load, no_files, read_record_path,
  records_of, terminal, valid_inventory,
}
use portable_external_intell.Closeout.Store.{
  active_records, admit, apply, apply_all, bytes_of, bytes_without, cursor_of, index_of,
  may_reserve, may_write, picked, quoted_bytes, read_record, reserve, write_record,
}
use portable_external_intell.Closeout.Stages.{Digests, persist_prepared, prepared_of}
use portable_external_intell.Closeout.Follows.{Follows}
use portable_external_intell.Closeout.Guarded.{InIndex}
use portable_external_intell.Closeout.History.{
  Steps, acts, done, earlier, goes_on, looks, persists_prepared, reserves, writes_of,
}
use portable_external_intell.Closeout.Trace.{Steps-Follows, Steps-Listed}
use portable_external_intell.Closeout.View.{is_ok, write_record-updates}
use portable_external_intell.Closeout.Rotation.{active_records-rotates}

abbrev hash : String
hash = "sha256:0123456789abcdef0123456789abcdef0123456789abcdef0123456789abcdef"

abbrev first_id : String
first_id = "co_0000000000000000000000000000000000000000000000000000000000000000"

abbrev second_id : String
second_id = "co_1111111111111111111111111111111111111111111111111111111111111111"

abbrev spool : String
spool = "spool_0123456789abcdef0123456789abcdef"

abbrev env : StoreEnv
env = record { encoded = λ a. 2000; forbidden = λ a. false }

abbrev digests : Digests
digests = record { result = λ i d c h w. hash; integrity = λ a t. hash }

abbrev fresh : String → Association
fresh id = record {
  schema_version = 1;
  intent = record {
    record_id = id;
    host_hash = hash;
    instance_hash = hash;
    store_hash = hash;
    session_hash = hash;
    record_hash = hash;
    cwd_hash = hash;
    domain_hash = hash;
    target_ids = hash ∷ [];
    target_set_hash = hash;
    binding_digest = hash;
    content_hash = hash;
  };
  status = preparing;
  created_at = 10;
  expires_at = 1000;
  spool_id = spool;
  spool_ref = none;
  decision = none;
  candidate_hash = none;
  changeset_id_hash = none;
  changeset_hash = none;
  application_ref = none;
  witness = [];
  team_result = none;
  reason_code = "CLOSEOUT_RESERVED";
  result_digest = none;
}

abbrev spool_ref : SpoolRef
spool_ref = record {
  spool_id = spool;
  content_hash = hash;
  classification = "private-reusable";
  created_at = 10;
  expires_at = 1000;
  key_id = none;
  encrypted = true;
  purpose = "validated-result";
}

abbrev answered : Association
answered = record (fresh first_id) {
  status = prepared;
  spool_ref = some spool_ref;
  decision = some answer_no;
  candidate_hash = some hash;
  reason_code = "CLOSEOUT_NO_EVALUATED";
  result_digest = some hash;
}

abbrev one_file : Files
one_file = record {
  root_exists = true;
  index = some (holds (index_of (first_id ∷ [])));
  cursor = some (holds (cursor_of none));
  records = (first_id, holds (fresh first_id)) ∷ [];
}

valid : validate_association env.forbidden (fresh first_id) ≡ ok tt
unfolding validate_association fields_ok status_rules hash_ok hex_id target_ids_ok witness_ok
    reason_code_ok ascending
valid = refl

valid_answered : validate_association env.forbidden answered ≡ ok tt
unfolding validate_association fields_ok status_rules hash_ok hex_id target_ids_ok witness_ok
    reason_code_ok ascending
valid_answered = refl

reserved_first : apply_all (reserve env (fresh first_id) no_files).0 no_files ≡ one_file
unfolding reserve may_reserve admit inventory valid_inventory records_of load read_record_path
    validate_association fields_ok status_rules hash_ok hex_id target_ids_ok witness_ok
    reason_code_ok ascending apply_all apply lookup insert bytes_of quoted_bytes sorted_add
reserved_first = refl

reserving : Steps env digests no_files [] one_file []
unfolding reserve may_reserve admit inventory valid_inventory records_of load read_record_path
    validate_association fields_ok status_rules hash_ok hex_id target_ids_ok witness_ok
    reason_code_ok ascending apply_all apply lookup insert bytes_of quoted_bytes sorted_add
    writes_of earlier take
reserving = goes_on done (acts (reserves (fresh first_id)) 9 tt)

abbrev answered_file : Files
answered_file = record one_file { records = (first_id, holds answered) ∷ [] }

persisting : Steps env digests one_file [] answered_file (fresh first_id ∷ [])
unfolding inventory valid_inventory records_of load read_record_path read_record
    validate_association fields_ok status_rules hash_ok hex_id target_ids_ok witness_ok
    reason_code_ok ascending apply_all apply lookup insert bytes_without writes_of earlier take
    persist_prepared prepared_of write_record may_write
persisting =
    goes_on (goes_on done (looks (fresh first_id) refl))
      (acts (persists_prepared (fresh first_id) spool_ref answer_no hash hash) 1 (inl refl))

-- A crash behind the first write of the list leaves a list that names a missing file.
crashed :
    inventory env (apply_all (take 4 (reserve env (fresh first_id) no_files).0) no_files)
    ≡ err index_unknown
unfolding reserve may_reserve admit inventory valid_inventory records_of load read_record_path
    validate_association fields_ok status_rules hash_ok hex_id target_ids_ok witness_ok
    reason_code_ok ascending apply_all apply lookup insert bytes_of quoted_bytes sorted_add take
crashed = refl

Steps-Listed_example : (terminal (fresh first_id).status ≡ true) ⊎ InIndex one_file first_id
unfolding lookup
Steps-Listed_example = Steps-Listed env digests first_id (fresh first_id) reserving refl

Steps-Follows_example :
    (b : Association) × (lookup first_id answered_file.records ≡ some (holds b))
    × Follows (fresh first_id) b
unfolding lookup
Steps-Follows_example =
    Steps-Follows env digests first_id (fresh first_id) reserving persisting refl

abbrev two_files : Files
two_files = record {
  root_exists = true;
  index = some (holds (index_of (first_id ∷ second_id ∷ [])));
  cursor = some (holds (cursor_of (some first_id)));
  records = (first_id, holds answered) ∷ (second_id, holds (fresh second_id)) ∷ [];
}

abbrev two : Inventory
two = record {
  active = first_id ∷ second_id ∷ [];
  last_record_id = some first_id;
  records = (first_id, answered) ∷ (second_id, fresh second_id) ∷ [];
}

active_records-rotates_example :
    active_records env 1 two_files ≡ ok (picked (take 1 (second_id ∷ first_id ∷ [])) two.records)
unfolding inventory valid_inventory records_of load read_record_path validate_association fields_ok
    status_rules hash_ok hex_id target_ids_ok witness_ok reason_code_ok ascending lookup
active_records-rotates_example =
    active_records-rotates env two_files two 1 [] (second_id ∷ []) first_id refl refl refl
      (ground arith) (ground arith)

write_record-updates_example :
    read_record env first_id (apply_all (write_record env (fresh second_id) two_files).0 two_files)
    ≡ (if is_ok (write_record env (fresh second_id) two_files).1 && str_eq second_id first_id
        then ok (some (fresh second_id))
        else read_record env first_id two_files)
unfolding inventory valid_inventory records_of load read_record_path validate_association fields_ok
    status_rules hash_ok hex_id target_ids_ok witness_ok reason_code_ok ascending lookup
write_record-updates_example =
    write_record-updates env (fresh second_id) two_files two first_id refl refl
