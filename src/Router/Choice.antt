-- ===== src/Router/Choice.antt =====
-- Which provider `ProviderRouter` of src/ei/inference/router.py takes.
use portable_external_intell.Prelude.{
  Bool, Bool-cases, List, Option, Option-cases, Result, String, [], ap, err, has, if◌then◌else◌,
  inl, inr, is_some, none, not, ok, some, str_eq, subst, true, ℕ, ◌&&◌, ◌++◌, ◌==◌, ◌∷◌, ◌≡◌,
}
use portable_external_intell.Budget.Consume.{Budget, InferenceBudget}

pub record Provider : Type 0 where
  pub provider_id : String
  pub locality : String
  pub available : Bool

pub record OrganizerSelection : Type 0 where
  pub status : String
  pub provider_id : Option String

-- The router: its providers by their order, the order that is configured, the organizer, the cap on the
-- spending in a cloud, and its ledger or the settings from which it makes one.
pub record Router : Type 0 where
  pub providers : List Provider
  pub provider_order : List String
  pub organizer : OrganizerSelection
  pub cloud_spend_cap : ℕ
  pub budget_ledger : Option Budget
  pub settings : Option (InferenceBudget → Budget)

pub data RouterError : Type 0 where
  inference_task_required : RouterError
  organizer_selection_required organizer_provider_not_configured : List String → RouterError

-- What a caller allows: the providers that it names, or all, the disabled ones, and its own cap and order.
pub record RoutePolicy : Type 0 where
  pub allowed_providers : Option (List String)
  pub disabled_providers : List String
  pub cloud_spend_cap : Option ℕ
  pub provider_order : Option (List String)

-- `_by_id`; no two providers of a router share an identifier.
unfoldable pub by_id : List Provider → String → Option Provider
by_id [] id = none
by_id (p ∷ ps) id = let rest = by_id ps id in if str_eq p.provider_id id then some p else rest

unfoldable pub ids_of : List Provider → List String
ids_of [] = []
ids_of (p ∷ ps) = p.provider_id ∷ ids_of ps

abbrev pub is_ready : OrganizerSelection → Bool
is_ready o = str_eq o.status "READY"

abbrev pub named : List Provider → Option String → Option Provider
named ps none = none
named ps (some id) = if str_eq id "" then none else by_id ps id

-- `selected`
unfoldable pub selected : Router → Result RouterError Provider
selected r =
    if is_ready r.organizer
    then elim (named r.providers r.organizer.provider_id) [
      | some p ↦ ok p
      | none ↦ err (organizer_provider_not_configured (ids_of r.providers))
    ]
    else err (organizer_selection_required (ids_of r.providers))

-- `choose`: the policy of the caller does not count.
unfoldable pub choose : Router → String → Result RouterError Provider
choose r task = if str_eq task "" then err inference_task_required else selected r

abbrev pub allows : Option (List String) → String → Bool
allows none id = true
allows (some ids) id = has ids id

abbrev pub cap_or : Option ℕ → ℕ → ℕ
cap_or none n = n
cap_or (some m) n = m

-- The tests on the provider of the organizer.
abbrev pub eligible : Router → RoutePolicy → Provider → Bool
eligible r p q =
    allows p.allowed_providers q.provider_id
    && not (has p.disabled_providers q.provider_id)
    && q.available
    && not (str_eq q.locality "cloud" && cap_or p.cloud_spend_cap r.cloud_spend_cap == 0)

-- `eligible_providers`
unfoldable pub eligible_providers : Router → RoutePolicy → List Provider
eligible_providers r p =
    if is_ready r.organizer
    then elim (named r.providers r.organizer.provider_id) [
      | none ↦ []
      | some q ↦ if eligible r p q then q ∷ [] else []
    ]
    else []

-- The identifiers of a list that the router knows.
unfoldable pub known_ids : List Provider → List String → List String
known_ids ps [] = []
known_ids ps (id ∷ ids) =
    let rest = known_ids ps ids in if is_some (by_id ps id) then id ∷ rest else rest

-- The identifiers of the providers that a list leaves out; the list grows by each of them.
unfoldable pub add_missing : List String → List Provider → List String
add_missing ids [] = ids
add_missing ids (p ∷ ps) =
    let without_it = add_missing ids ps in
    let with_it = add_missing (ids ++ p.provider_id ∷ []) ps in
    if has ids p.provider_id then without_it else with_it

-- `_ordered_ids`
unfoldable pub ordered_ids : Router → RoutePolicy → List String
ordered_ids r p = elim p.provider_order [
  | none ↦ add_missing (known_ids r.providers r.provider_order) r.providers
  | some ids ↦ add_missing (known_ids r.providers ids) r.providers
]

-- The one eligible provider, if there is one, is the selected one, and it is no cloud provider where the
-- cap on cloud spending is nothing.
pub eligible-selected :
    (r : Router) (p : RoutePolicy) (q : Provider) (others : List Provider)
    → eligible_providers r p ≡ q ∷ others
    → (others ≡ []) × (selected r ≡ ok q) × (eligible r p q ≡ true)
unfolding eligible_providers selected
eligible-selected r p q others h = elim (Bool-cases (is_ready r.organizer)) [
  | inr unready ↦ absurd (cc (rw unready at h))
  | inl ready ↦ elim (Option-cases (named r.providers r.organizer.provider_id)) [
    | inl unknown ↦ absurd (cc (rw (ready, unknown) at h))
    | inr (found, e) ↦ elim (Bool-cases (eligible r p found)) [
      | inl fine ↦
          let h' = rw (ready, e, fine) at h in
          let same : found ≡ q = cc in
          (cc, rw (ready, e) (ap ok same), subst (λ x. eligible r p x ≡ true) same fine)
      | inr refused ↦ absurd (cc (rw (ready, e, refused) at h))
    ]
  ]
]
