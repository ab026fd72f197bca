-- ===== src/Outbox/State.antt =====
-- The receipts, the spool and the team store of src/ei/team_outbox.py and src/ei/team_store.py. An identifier
-- of a receipt is kept without its prefix `teamoutbox_`, and that of its spool without `spool_team_`.
use portable_external_intell.Prelude.{
  Bool, List, Option, Result, String, [], err, false, if◌then◌else◌, insert, is_some, lookup, none,
  not, ok, some, str_eq, true, ℕ, ◌&&◌, ◌++◌, ◌>>=◌, ◌||◌, ◌∷◌,
}

pub data DeliveryStatus : Type 0 where
  pending deferred delivered failed : DeliveryStatus

-- An event: its identifier, the key in its payload, the digest that it carries, and the rest.
pub record Event : Type 0 where
  pub event_id : String
  pub idempotency_key : Option String
  pub integrity_sha256 : String
  pub content : String

-- What is given to the outbox, and lies in the encrypted spool; the classification is that of its event, or
-- `private-reusable` where none is named.
pub record Payload : Type 0 where
  pub event : Option Event
  pub member_id : Option String
  pub writer_id : Option String
  pub team_root_hash : Option String
  pub idempotency_key : Option String
  pub classification : String

pub record Receipt : Type 0 where
  pub receipt_id : String
  pub status : DeliveryStatus
  pub store_id_hash : String
  pub member_id_hash : String
  pub writer_id_hash : String
  pub personal_event_hash : String
  pub idempotency_key : String
  pub spool_ref : Option String
  pub created_at : ℕ
  pub attempts : ℕ
  pub last_error_code : Option String
  pub delivered_at : Option ℕ
  pub final_event_hash : Option String
  pub team_root_hash : Option String

-- An event in the shard of a writer.
pub record Filed : Type 0 where
  pub member_id : String
  pub writer_id : String
  pub event : Event

-- The team store: whether its root is there, the digest of the root's path, the identifier of the store where
-- its manifest can be read, the events that a scan finds, and whether the scan has issues.
pub record Team : Type 0 where
  pub root_exists : Bool
  pub root_hash : String
  pub store_id : Option String
  pub events : List Filed
  pub issues : Bool

pub record World : Type 0 where
  pub receipts : List (String × Receipt)
  pub spool : List (String × Payload)
  pub team : Team

-- The writes of the outbox, each of them whole.
pub data Effect : Type 0 where
  spools : (id : String) (p : Payload) → Effect
  saves : Receipt → Effect
  files : Filed → Effect
  deletes : String → Effect

unfoldable pub remove {ℓ} : {V : Type ℓ} → String → List (String × V) → List (String × V)
remove id [] = []
remove id ((key, v) ∷ rest) =
    let below = remove id rest in if str_eq key id then below else (key, v) ∷ below

-- An event that is filed already is not filed again.
unfoldable pub apply : Effect → World → World
apply (spools id p) w = record w { spool = insert id p w.spool }
apply (saves r) w = record w { receipts = insert r.receipt_id r w.receipts }
apply (files e) w = record w { team = record w.team { events = w.team.events ++ e ∷ [] } }
apply (deletes id) w = record w { spool = remove id w.spool }

unfoldable pub apply_all : List Effect → World → World
apply_all [] w = w
apply_all (e ∷ es) w = apply_all es (apply e w)

pub record Digests : Type 0 where
  pub domain_hash : String → String → String
  pub sha256_32 : String → String
  pub event_integrity : Event → String

-- What a run meets: the time, whether a team store is configured, a spool that cannot be read, with its reason,
-- one that cannot be deleted, and an event that cannot be filed.
pub record Surroundings : Type 0 where
  pub now : ℕ
  pub configured : Bool
  pub unreadable : String → Option String
  pub undeletable : String → Bool
  pub unfiled : Event → Option String

abbrev pub is_delivered : DeliveryStatus → Bool
is_delivered delivered = true
is_delivered pending = false
is_delivered deferred = false
is_delivered failed = false

-- `status in {"PENDING", "DEFERRED"}`
abbrev pub waits : DeliveryStatus → Bool
waits pending = true
waits deferred = true
waits delivered = false
waits failed = false

abbrev pub same_hash : Option String → String → Bool
same_hash none h = false
same_hash (some g) h = str_eq g h

-- `read_spool`
unfoldable pub read_spool : Surroundings → String → World → Result String Payload
read_spool s id w = elim (lookup id w.spool) [
  | none ↦ err "SPOOL_NOT_FOUND"
  | some p ↦ elim (s.unreadable id) [ some code ↦ err code | none ↦ ok p ]
]

-- `_binding_error`
unfoldable pub binding_error : Digests → Receipt → World → Bool
binding_error d r w =
    (is_some r.team_root_hash && not (same_hash r.team_root_hash w.team.root_hash))
    || elim w.team.store_id [
      | none ↦ true
      | some id ↦ not (str_eq r.store_id_hash (d.domain_hash id "team-store-id"))
    ]

-- `_spooled_identity_matches`, of a spool that was read.
abbrev pub identity_matches : Digests → Receipt → Payload → Bool
identity_matches d r p = elim p.member_id [
  | none ↦ false
  | some member ↦ elim p.writer_id [
    | none ↦ false
    | some writer ↦
        str_eq r.member_id_hash (d.domain_hash member "team-member-id")
        && str_eq r.writer_id_hash (d.domain_hash writer "team-writer-id")
  ]
]

-- The loop of `_already_recorded`: the last event with the key, where all of them are one.
unfoldable pub found_event :
    Digests → String → List Filed → Option Event → Result String (Option Event)
found_event d key [] found = ok found
found_event d key (f ∷ rest) found =
    let onward = found_event d key rest found in
    let here = found_event d key rest (some f.event) in
    if same_hash f.event.idempotency_key key
    then elim found [
      | none ↦ here
      | some e ↦
          if str_eq (d.event_integrity e) (d.event_integrity f.event)
          then here
          else err "TEAM_IDEMPOTENCY_CONFLICT"
    ]
    else onward

-- `_already_recorded`
unfoldable pub already_recorded : Digests → String → World → Result String (Option Event)
already_recorded d key w = found_event d key w.team.events none >>= λ found.
    (if not (is_some found) && w.team.issues then err "TEAM_SCAN_INCOMPLETE" else ok found)

-- The same file: the shard and the identifier.
abbrev pub same_place : Filed → Filed → Bool
same_place a b =
    str_eq a.member_id b.member_id
    && str_eq a.writer_id b.writer_id
    && str_eq a.event.event_id b.event.event_id

unfoldable pub at_place : Filed → List Filed → Option Event
at_place f [] = none
at_place f (g ∷ rest) =
    let later = at_place f rest in if same_place g f then some g.event else later

-- `append_team_event`: an event that is at its place already is left there, another one is a conflict.
unfoldable pub append_team_event :
    Digests → Surroundings → Filed → World → Result String (List Effect)
append_team_event d s f w = elim (s.unfiled f.event) [
  | some code ↦ err code
  | none ↦ elim (at_place f w.team.events) [
    | none ↦ ok (files f ∷ [])
    | some e ↦
        if str_eq (d.event_integrity e) (d.event_integrity f.event)
        then ok []
        else err "TEAM_EVENT_ID_CONFLICT"
  ]
]
