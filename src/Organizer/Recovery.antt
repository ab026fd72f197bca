-- ===== src/Organizer/Recovery.antt =====
-- What `recover` of src/ei/organizer_recovery.py leaves in the file.
use portable_external_intell.Prelude.{
  Bool, Bool-cases, Option, Option-cases, String, arith, false, if◌then◌else◌, inl, inr, is_some,
  none, not, ok, refl, some, str_eq, true, ◌&&◌, ◌≡◌,
}
use portable_external_intell.Organizer.State.{
  File, Organizer, State, fingerprint_ok, read_state, reason_ok, request_ok,
}
use portable_external_intell.Organizer.Run.{Provider}
use portable_external_intell.Organizer.Request.{
  bad_fingerprint, bind_organizer, lifted, mismatched, recover, recover_read, recover_state,
  text_or,
}
use portable_external_intell.Organizer.Validity.{Valid}
use portable_external_intell.Organizer.Again.{read-written}

-- A first fingerprint that comes with a pending request.
abbrev pub binds_request : Bool → Option String → State → Bool
binds_request verified given s =
    not verified && is_some given && str_eq s.config_fingerprint "" && is_some s.retry_request

-- The state that a recovery leaves, where it reads one.
abbrev pub recovered_state : Bool → Option String → State → State
recovered_state verified given s =
    if not verified && not (mismatched given s.config_fingerprint)
    then (if is_some given && str_eq s.config_fingerprint ""
        then record s { config_fingerprint = text_or given s.config_fingerprint }
        else s)
    else lifted verified given s

pub recover-ok :
    (o : Organizer) (p : Provider) (verified : Bool) (given : Option String) (f : File) {s : State}
    → str_eq p.provider_id o.provider_id ≡ true
    → bad_fingerprint given ≡ false
    → read_state o f ≡ ok s
    → recover o p verified given f ≡ recover_state o verified given f s
unfolding recover recover_read
recover-ok o p verified given f a b e = rw (a, b, e) refl

pub given-ok :
    (given : Option String) (s : State)
    → bad_fingerprint given ≡ false
    → fingerprint_ok s.config_fingerprint ≡ true
    → fingerprint_ok (text_or given s.config_fingerprint) ≡ true
unfolding fingerprint_ok
given-ok none s b h = h
given-ok (some f) s b h = ground arith

lifted-Valid :
    (p : String) (verified : Bool) (given : Option String) (s : State)
    → bad_fingerprint given ≡ false
    → Valid p s
    → Valid p (lifted verified given s)
unfolding lifted request_ok reason_ok
lifted-Valid p true given s b (x, y, z) = (refl, given-ok given s b y, refl)
lifted-Valid p false given s b (x, y, z) = (refl, given-ok given s b y, refl)

bound-Valid :
    (p : String) (verified : Bool) (given : Option String) (s : State)
    → bad_fingerprint given ≡ false
    → (is_some given && str_eq s.config_fingerprint "") ≡ true
    → is_some s.retry_request ≡ false
    → Valid p s
    → Valid p (record s { config_fingerprint = text_or given s.config_fingerprint })
unfolding request_ok
bound-Valid p verified given s b g n (x, y, z) = elim (Option-cases s.retry_request) [
  | inl e ↦ (x, given-ok given s b y, rw e refl)
  | inr (r, e) ↦ cc
]

pub recovered_state-Valid :
    (p : String) (verified : Bool) (given : Option String) (s : State)
    → bad_fingerprint given ≡ false
    → binds_request verified given s ≡ false
    → Valid p s
    → Valid p (recovered_state verified given s)
recovered_state-Valid p verified given s b n v =
    elim (Bool-cases (not verified && not (mismatched given s.config_fingerprint))) [
      | inl k ↦ elim (Bool-cases (is_some given && str_eq s.config_fingerprint "")) [
        | inl g ↦ rw (k, g) (bound-Valid p verified given s b g (ground arith) v)
        | inr g ↦ rw (k, g) v
      ]
      | inr k ↦ rw k (lifted-Valid p verified given s b v)
    ]

same_provider :
    (o : Organizer) (given : Option String) → (bind_organizer o given).provider_id ≡ o.provider_id
same_provider o none = refl
same_provider o (some f) = refl

-- What is left reads, for the object as it is then.
pub recover_state-Readable :
    (o : Organizer) (verified : Bool) (given : Option String) (f : File) (s : State)
    → read_state o f ≡ ok s
    → Valid o.provider_id (recovered_state verified given s)
    → read_state
        (recover_state o verified given f s).organizer
        (recover_state o verified given f s).file
      ≡ ok (recovered_state verified given s)
unfolding recover_state
recover_state-Readable o verified given f s e v =
    let w =
      read-written o (bind_organizer o given) (recovered_state verified given s)
        (same_provider o given) v in
    elim (Bool-cases (not verified && not (mismatched given s.config_fingerprint))) [
      | inl k ↦ elim (Bool-cases (is_some given && str_eq s.config_fingerprint "")) [
        | inl g ↦ rw (k, g) (rw (k, g) at w)
        | inr g ↦ rw (k, g) e
      ]
      | inr k ↦ rw k (rw k at w)
    ]
