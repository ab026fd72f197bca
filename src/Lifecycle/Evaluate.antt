-- ===== src/Lifecycle/Evaluate.antt =====
-- `evaluate_lifecycle` and `apply_lifecycle_transition` of src/ei/lifecycle.py. The reading of a time
-- and the digest of an identifier are parameters; an event's own identifiers are digests of the rest.
use portable_external_intell.Prelude.{
  Bool, List, Option, String, [], days, false, if◌then◌else◌, is_nil, leb, length, none, not,
  or_else, some, str_eq, ℕ, ◌&&◌, ◌+◌, ◌==◌, ◌∷◌,
}
use portable_external_intell.Lifecycle.State.{Cluster, Policy, promotion_eligibility}

pub data Payload : Type 0 where
  promoted_payload :
      (pattern_id rule : String) (provenances scopes : List String) (benefit_count : ℕ)
      (classification : String) (applicability : List String)
      → Payload
  pattern_payload : (pattern_id : Option String) → Payload
  tombstone_payload : (pattern_id : Option String) (replacement : Option String) → Payload
  replacement_payload :
      (pattern_id rule classification : String) (replaces_pattern_id : Option String) → Payload
  superseded_payload :
      (pattern_id : Option String) (replacement_pattern_id : String) (replacement_active : Bool)
      → Payload
  revision_payload :
      (meaning_reversing : Bool) (replacement_pattern_id rule : Option String) → Payload

-- `Event`: what the code reads and writes of it.
pub record Event : Type 0 where
  pub event_id : String
  pub event_type : String
  pub occurred_at : String
  pub reason : String
  pub evidence_refs : List String
  pub policy_version : String
  pub old_version : ℕ
  pub new_version : ℕ
  pub payload : Payload

abbrev non_empty : List String → List String
non_empty [] = []
non_empty (x ∷ xs) = let rest = non_empty xs in if str_eq x "" then rest else x ∷ rest

-- `a or b` on sequences.
abbrev list_or : List String → List String → List String
list_or [] ys = ys
list_or (x ∷ xs) ys = x ∷ xs

-- The instant 1970-01-01, from the first of January of the year 1.
abbrev pub epoch : ℕ
epoch = days 719162

module _ (parse : String → Option ℕ) (digest : String → String) (sorted : List String → List String)
    (event_digest : String → String → Payload → String) where
  unfoldable pub evidence : Cluster → List String
  evidence s = sorted (non_empty (list_or s.evidence_refs s.provenances))

  abbrev version_of : Policy → String
  version_of p = if str_eq p.policy_version "" then "promotion-v1" else p.policy_version

  -- `_event`
  unfoldable pub event : String → Cluster → String → Policy → String → Payload → ℕ → ℕ → Event
  event event_type s timestamp p reason body old new = record {
    event_id = event_digest event_type s.cluster_id body;
    event_type = event_type;
    occurred_at = timestamp;
    reason = reason;
    evidence_refs = evidence s;
    policy_version = version_of p;
    old_version = old;
    new_version = new;
    payload = body;
  }

  abbrev pub parse_some : Option String → Option ℕ
  parse_some none = none
  parse_some (some t) = if str_eq t "" then none else parse t

  abbrev long_enough : Option ℕ → ℕ → ℕ → Bool
  long_enough none now n = false
  long_enough (some reference) now n = leb (reference + days n) now

  -- `_inactive_long_enough`
  unfoldable pub inactive_long_enough : Cluster → ℕ → ℕ → Bool
  inactive_long_enough s now n =
      long_enough (or_else (parse_some s.last_used_at) (parse_some s.deprecated_at)) now n

  -- `a or b` on optional texts, where an empty text counts as none.
  abbrev text_or : Option String → Option String → Option String
  text_or none b = b
  text_or (some t) b = if str_eq t "" then b else some t

  abbrev from_some : Option String → String → String
  from_some none d = d
  from_some (some t) d = t

  abbrev said : Option String → Bool
  said none = false
  said (some t) = not (str_eq t "")

  unfoldable pub timestamp_of : Option String → Cluster → String
  timestamp_of (some t) s = t
  timestamp_of none s =
      from_some (text_or s.last_used_at (text_or s.deprecated_at none)) "1970-01-01T00:00:00+00:00"

  abbrev instant_or : Option ℕ → ℕ
  instant_or none = epoch
  instant_or (some t) = t

  unfoldable pub now_of : Option String → Cluster → ℕ
  now_of now_utc s = instant_or (parse_some (some (timestamp_of now_utc s)))

  abbrev pub many_contradictions : Cluster → Policy → Bool
  many_contradictions s p =
      str_eq s.status "active"
      && leb p.contradiction_count_for_deprecation (length s.contradiction_provenances)

  abbrev pub stale : Cluster → Policy → ℕ → Bool
  stale s p now =
      str_eq s.status "active"
      && s.benefit_count == 0
      && inactive_long_enough s now p.unused_days_for_deprecation

  -- A pattern that nothing protects.
  abbrev pub unprotected : Cluster → Bool
  unprotected s =
      said s.pattern_id && not s.pinned && not s.legal_hold && is_nil s.contradiction_provenances

  abbrev pub replaced : Cluster → Policy → ℕ → Bool
  replaced s p now =
      str_eq s.status "superseded"
      && s.replacement_active
      && said s.superseded_by
      && s.exposure_count == 0
      && inactive_long_enough s now p.superseded_unused_days_for_tombstone

  abbrev pub forgotten : Cluster → Policy → ℕ → Bool
  forgotten s p now =
      str_eq s.status "deprecated"
      && s.exposure_count == 0
      && inactive_long_enough s now p.deprecated_unused_days_for_tombstone

  unfoldable pub promotion : Cluster → Policy → String → Event
  promotion s p timestamp =
      event "pattern.promoted" s timestamp p "PROMOTION_ELIGIBLE"
        (promoted_payload (from_some (text_or s.pattern_id none) (digest s.cluster_id)) s.rule
          (sorted s.provenances) (sorted s.scopes) s.benefit_count s.classification s.applicability)
        s.revision s.revision

  unfoldable pub tombstones : Cluster → Policy → String → ℕ → List Event
  tombstones s p timestamp now =
      if unprotected s && replaced s p now
      then event "pattern.tombstoned" s timestamp p "SUPERSEDED_INACTIVE"
          (tombstone_payload s.pattern_id s.superseded_by) s.revision s.revision
        ∷ []
      else if unprotected s && forgotten s p now
      then event "pattern.tombstoned" s timestamp p "DEPRECATED_INACTIVE"
          (pattern_payload s.pattern_id) s.revision s.revision
        ∷ []
      else []

  unfoldable pub evaluate_at : Cluster → Policy → String → ℕ → List Event
  evaluate_at s p timestamp now =
      if many_contradictions s p
      then event "pattern.deprecated" s timestamp p "THREE_INDEPENDENT_CONTRADICTIONS"
          (pattern_payload s.pattern_id) s.revision s.revision
        ∷ []
      else if stale s p now
      then event "pattern.deprecated" s timestamp p "STALE_NO_BENEFIT"
          (pattern_payload s.pattern_id) s.revision s.revision
        ∷ []
      else if (promotion_eligibility s p).valid
      then promotion s p timestamp ∷ []
      else tombstones s p timestamp now

  unfoldable pub evaluate_lifecycle : Cluster → Policy → Option String → List Event
  unfolding evaluate_at
  evaluate_lifecycle s p now_utc = evaluate_at s p (timestamp_of now_utc s) (now_of now_utc s)

  abbrev reverses : Payload → Bool
  reverses (revision_payload m replacement rule) = m
  reverses _ = false

  -- The replacement's identifier: the event's, or a digest of the event.
  abbrev replacement_of : Event → Payload → String
  replacement_of e (revision_payload m replacement rule) =
      from_some (text_or replacement none) (digest e.event_id)
  replacement_of e _ = digest e.event_id

  abbrev rule_of : Cluster → Payload → String
  rule_of s (revision_payload m replacement rule) = from_some rule s.rule
  rule_of s _ = s.rule

  unfoldable pub reversal : Cluster → Event → Policy → List Event
  reversal s e p =
      event "pattern.revised" s e.occurred_at p "MEANING_REVERSING_REPLACEMENT"
        (replacement_payload (replacement_of e e.payload) (rule_of s e.payload) s.classification
          s.pattern_id)
        s.revision (s.revision + 1)
      ∷ event "pattern.superseded" s e.occurred_at p "MEANING_REVERSING_REPLACEMENT"
          (superseded_payload s.pattern_id (replacement_of e e.payload) false) s.revision s.revision
      ∷ []

  unfoldable pub apply_lifecycle_transition : Cluster → Event → Policy → List Event
  unfolding reversal
  apply_lifecycle_transition s e p =
      if str_eq e.event_type "pattern.promoted" && not (promotion_eligibility s p).valid
      then []
      else if str_eq e.event_type "pattern.revised" && reverses e.payload
      then reversal s e p
      else e ∷ []
