-- ===== src/Queue/Directory.antt =====
-- The queue directory as src/ei/queue.py reads and writes it: a file of an item for each identifier,
-- the scan position of `claim`, and the bodies that the spool still holds. Each function is one
-- access under the queue's lock. A file that is not there cannot be read, as one with a bad content.
use Prim.Native.Char.{code}
use text.Mathlib.Text.{starts_with}
use portable_external_intell.Prelude.{
  String, ◌≡◌, refl, ap, Bool, true, Option, none, some, List, [], ◌∷◌, str_eq, if◌then◌else◌,
  Result, ok, err, lookup, insert, lookup-insert, Bool-cases, Option-cases, inl, inr, ℕ, leb, ◌==◌,
  ◌&&◌, ◌||◌,
}
use portable_external_intell.Queue.Item.{
  Wire, QueueItem, QueueError, queue_item_corrupt, Env, encode, decode,
}

id_char : ℕ → Bool
id_char c =
    (leb b'a' c && leb c b'z')
    || (leb b'A' c && leb c b'Z')
    || (leb b'0' c && leb c b'9')
    || c == b'_'
    || c == b'-'
    || c == b'.'

id_chars : String → Bool
unfolding id_char
id_chars String.[] = true
id_chars (String.◌∷◌ c rest) = id_char (code c) && id_chars rest

-- The test of `_safe_queue_path` on an identifier.
unfoldable pub queue_id_ok : String → Bool
unfolding id_chars
queue_id_ok id = starts_with id "queue_" && id_chars id

-- A file holds an object, or something that is no JSON object.
pub data Entry : Type 0 where
  stored : Wire → Entry
  unreadable : Entry

pub record Store : Type 0 where
  pub files : List (String × Entry)
  pub cursor : Option String
  pub bodies : List String

abbrev pub corrupt : {A : Type 0} → Result QueueError A → Result QueueError A
corrupt (ok a) = ok a
corrupt (err e) = err queue_item_corrupt

read_entry : Env → Option Entry → Result QueueError QueueItem
read_entry env none = err queue_item_corrupt
read_entry env (some unreadable) = err queue_item_corrupt
read_entry env (some (stored w)) = corrupt (decode env w)

-- `_read_item`: whatever is wrong with the file, it is corrupt.
unfoldable pub read_item : Env → String → Store → Result QueueError QueueItem
unfolding read_entry
read_item env id s = read_entry env (lookup id s.files)

-- `_store`
unfoldable pub store_item : QueueItem → Store → Store
store_item i s = record s { files = insert i.queue_id (stored (encode i)) s.files }

-- `catalog.advance("claim", …)`
unfoldable pub advance : String → Store → Store
advance id s = record s { cursor = some id }

without : String → List String → List String
without id [] = []
without id (x ∷ xs) = let rest = without id xs in if str_eq x id then rest else x ∷ rest

-- The effect of `delete_spool` on the bodies.
unfoldable pub delete_body : String → Store → Store
unfolding without
delete_body id s = record s { bodies = without id s.bodies }

-- A write is what the next read of its file decodes; other files are read as before.
pub read_item-store_item :
    (env : Env) (i : QueueItem) (id : String) (s : Store)
    → read_item env id (store_item i s)
      ≡ (if str_eq i.queue_id id then corrupt (decode env (encode i)) else read_item env id s)
unfolding read_item store_item read_entry
read_item-store_item env i id s =
    rw lookup-insert
      (elim (Bool-cases (str_eq i.queue_id id)) [ inl same ↦ rw same | inr other ↦ rw other ])

pub read_item-advance :
    (env : Env) (j id : String) (s : Store) → read_item env id (advance j s) ≡ read_item env id s
unfolding read_item advance
read_item-advance env j id s = refl

pub read_item-delete_body :
    (env : Env) (b id : String) (s : Store)
    → read_item env id (delete_body b s) ≡ read_item env id s
unfolding read_item delete_body
read_item-delete_body env b id s = refl

-- An item that can be read stands in a file that is there.
pub read_item-listed :
    (env : Env) (id : String) (s : Store) {i : QueueItem}
    → read_item env id s ≡ ok i
    → (e : Entry) × (lookup id s.files ≡ some e)
unfolding read_item read_entry
read_item-listed env id s h = elim (Option-cases (lookup id s.files)) [
  | inl absent ↦ absurd (cc (rw (absent, read_entry) at h))
  | inr (e, there) ↦ (e, there)
]

-- Reads see the files alone, and a write changes the files alone.
pub read_item-files :
    (env : Env) (id : String) (s t : Store)
    → s.files ≡ t.files
    → read_item env id s ≡ read_item env id t
unfolding read_item
read_item-files env id s t e = ap (λ l. read_entry env (lookup id l)) e

pub files-store_item :
    (i : QueueItem) (s t : Store)
    → s.files ≡ t.files
    → (store_item i s).files ≡ (store_item i t).files
unfolding store_item
files-store_item i s t e = ap (insert i.queue_id (stored (encode i))) e

pub files-advance : (id : String) (s : Store) → (advance id s).files ≡ s.files
unfolding advance
files-advance id s = refl

pub bodies-store_item : (i : QueueItem) (s : Store) → (store_item i s).bodies ≡ s.bodies
unfolding store_item
bodies-store_item i s = refl

-- An empty directory has no file to read.
pub read_item_empty :
    (env : Env) (id : String) {i : QueueItem}
    → read_item env id (record { files = []; cursor = none; bodies = [] }) ≡ ok i
    → ⊥
unfolding read_item read_entry lookup
read_item_empty env id h = cc
