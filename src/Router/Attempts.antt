-- ===== src/Router/Attempts.antt =====
-- The router of src/ei/inference/router.py with the ledger of src/ei/inference/budget.py: how often a provider
-- is called for an attempt.
use portable_external_intell.Prelude.{
  AllOk, Bool, List, Option, Result, String, [], ap, arith, chain-AllOk, err, false, if_elim,
  if_split, if◌then◌else◌, leb, none, not, ok, refl, some, str_eq, subst, suc, true, ℕ, ◌++◌, ◌+◌,
  ◌∷◌, ◌≡◌,
}
use portable_external_intell.Budget.Ledger.{BudgetError, Ledger, budget_id_invalid, safe_id}
use portable_external_intell.Budget.Consume.{
  Ask, Budget, BudgetResult, InferenceBudget, ask_of, consume, reserve,
}
use portable_external_intell.Budget.Settle.{ProviderResult, settle}
use portable_external_intell.Budget.Reserved.{
  Reserved, consume-Reserved, consume-Taken, consume-keeps, settle-keeps,
}
use portable_external_intell.Router.Choice.{Provider, Router, selected}
use portable_external_intell.Router.Generate.{
  Generated, LedgerEvent, LedgerFile, Reply, Request, admitted_call, attempt_of, broken, called,
  consumed_file, consumes, event_file, events_file, file_of, file_or_none, for_ledger, generate,
  ledger_for, out_or_none, reads, reply_settled, reserve_file, reserved_call, result_of, route,
  settle_file, settled_file, settles, with_ledger,
}

-- How often a text stands in a list.
unfoldable pub times : String → List String → ℕ
times id [] = 0
times id (x ∷ xs) = let rest = times id xs in if str_eq x id then suc rest else rest

pub times-append :
    (id : String) (xs ys : List String) → times id (xs ++ ys) ≡ times id xs + times id ys
unfolding times
times-append id [] ys = omega arith
times-append id (x ∷ xs) ys = let below = times-append id xs ys in ground (arith, below)

-- The ledger does not read, or it has the reservation.
abbrev pub Taken : String → LedgerFile → Type 0
Taken id broken = Unit
Taken id (reads l) = Reserved id l

settled_file-Taken :
    (id other : String) (r : ProviderResult) (l : Ledger) (out : Result BudgetError (Option Ledger))
    → settle id r l ≡ out
    → Reserved other l
    → Taken other (settled_file out (reads l))
settled_file-Taken id other r l (ok none) e h = tt
settled_file-Taken id other r l (ok (some after)) e h = settle-keeps id other r l after e h
settled_file-Taken id other r l (err x) e h = h

same_some : {A : Type 0} (a b : A) → some a ≡ some b → a ≡ b
same_some a b h = cc

file_or_none-Taken :
    (id other : String) (r : ProviderResult) (l : Ledger) (out : Result BudgetError (Option Ledger))
    (g : LedgerFile)
    → settle id r l ≡ out
    → file_or_none out ≡ some g
    → Reserved other l
    → Taken other g
file_or_none-Taken id other r l (err x) g e k h = cc
file_or_none-Taken id other r l (ok out) g e k h =
    subst (Taken other) (same_some (file_of out) g k) (settled_file-Taken id other r l (ok out) e h)

settle_file-Taken :
    (id other : String) (r : ProviderResult) (f g : LedgerFile)
    → settle_file id r f ≡ some g
    → Taken other f
    → Taken other g
settle_file-Taken id other r broken g e h = cc
settle_file-Taken id other r (reads l) g e h = file_or_none-Taken id other r l _ g refl e h

pub not_some : {A : Type 0} {a : A} → ¬ (none ≡ some a)
not_some h = cc

true_not_false : {b : Bool} → b ≡ true → ¬ (b ≡ false)
true_not_false h k = cc

not-false : (b : Bool) → not b ≡ false → b ≡ true
not-false b h = ground (arith, h)

safe_some :
    (safe : Bool) (m : Result BudgetError (BudgetResult × Ledger)) (out : BudgetResult × Ledger)
    → out_or_none (if safe then m else err budget_id_invalid) ≡ some out
    → m ≡ ok out
safe_some true (ok x) out h = ap ok (same_some x out h)
safe_some true (err e) out h = cc
safe_some false m out h = cc

module _ (digest : String → String) where
  consumed_file-Taken :
      (b : Budget) (a : Ask) (other : String) (l : Ledger)
      (out : Result BudgetError (BudgetResult × Ledger))
      → consume digest b a l ≡ out
      → Reserved other l
      → Taken other (consumed_file out (reads l))
  consumed_file-Taken b a other l (ok (r, after)) e h = consume-keeps digest b a l after r other e h
  consumed_file-Taken b a other l (err x) e h = h

  event_file-Taken :
      (e : LedgerEvent) (other : String) (f : LedgerFile)
      → Taken other f
      → Taken other (event_file digest e f)
  unfolding event_file
  event_file-Taken (consumes b a) other broken h = tt
  event_file-Taken (settles id r) other broken h = tt
  event_file-Taken (consumes b a) other (reads l) h = consumed_file-Taken b a other l _ refl h
  event_file-Taken (settles id r) other (reads l) h = settled_file-Taken id other r l _ refl h

  events_file-Taken :
      (es : List LedgerEvent) (other : String) (f : LedgerFile)
      → Taken other f
      → Taken other (events_file digest es f)
  unfolding events_file
  events_file-Taken [] other f h = h
  events_file-Taken (e ∷ es) other f h =
      events_file-Taken es other (event_file digest e f) (event_file-Taken e other f h)

  -- A call of the router: it makes no call of the provider, or one for an attempt whose reservation was
  -- made for it.
  pub data Routed (f : LedgerFile) : Generated → Type 0 where
    uncalled :
        (reply : Reply) (g : LedgerFile)
        → ((other : String) → Taken other f → Taken other g)
        → Routed f (record { reply = reply; file = g; calls = [] })
    once :
        (reply : Reply) (g : LedgerFile) (id : String)
        → ((other : String) → Taken other f → Taken other g)
        → ¬ (Taken id f)
        → Taken id g
        → Routed f (record { reply = reply; file = g; calls = id ∷ [] })

  reply_settled-Routed :
      (p : Provider) (result : Reply) (id : String) (settled : Option LedgerFile) (f g : LedgerFile)
      → ((other : String) → Taken other f → Taken other g)
      → ¬ (Taken id f)
      → Taken id g
      → ((h : LedgerFile) → settled ≡ some h → (other : String) → Taken other g → Taken other h)
      → Routed f (reply_settled p result id settled g)
  reply_settled-Routed p result id none f g keeps free there onward = once _ g id keeps free there
  reply_settled-Routed p result id (some h) f g keeps free there onward =
      once _ h id (λ other t. onward h refl other (keeps other t)) free (onward h refl id there)

  settled-Taken :
      (fails : Bool) (id : String) (r : ProviderResult) (g h : LedgerFile)
      → (if fails then none else settle_file id r g) ≡ some h
      → (other : String) → Taken other g
      → Taken other h
  settled-Taken true id r g h e other t = cc
  settled-Taken false id r g h e other t = settle_file-Taken id other r g h e t

  called-Routed :
      (p : Provider) (q : Request) (id : String) (f : LedgerFile) (l : Ledger)
      → ((other : String) → Taken other f → Reserved other l)
      → ¬ (Taken id f)
      → Reserved id l
      → Routed f (called digest p q id (reads l))
  unfolding called
  called-Routed p q id f l keeps free there =
      reply_settled-Routed p (result_of p q.outcome) id _ f (events_file digest q.others (reads l))
        (λ other t. events_file-Taken q.others other (reads l) (keeps other t)) free
        (events_file-Taken q.others id (reads l) there)
        (λ h e other t.
          settled-Taken q.settle_fails id (for_ledger (result_of p q.outcome)) _ h e other t)

  admitted_call-Routed :
      (p : Provider) (q : Request) (id : String) (r : BudgetResult) (f : LedgerFile) (l : Ledger)
      → ((other : String) → Taken other f → Reserved other l)
      → (r.allowed ≡ true → ¬ (Taken id f))
      → (r.allowed ≡ true → Reserved id l)
      → Routed f (admitted_call digest p q id r (reads l))
  unfolding admitted_call
  admitted_call-Routed p q id r f l keeps free there =
      if_split (Routed f) (not r.allowed) (λ refused. uncalled _ (reads l) keeps)
        (λ allowed.
          if_elim (Routed f) (leb q.limits.deadline_ms q.elapsed_ms) (uncalled _ (reads l) keeps) (
            called-Routed p q id f l keeps (free (not-false r.allowed allowed))
              (there (not-false r.allowed allowed))))

  pub reserve-consume :
      (b : Budget) (id provider : String) (limits : InferenceBudget) (day : String) (l : Ledger)
      (out : BudgetResult × Ledger)
      → out_or_none (reserve digest b id provider limits day l) ≡ some out
      → consume digest b (ask_of b id provider limits day) l ≡ ok out
  unfolding reserve
  reserve-consume b id provider limits day l out h =
      safe_some (safe_id id) (consume digest b (ask_of b id provider limits day) l) out h

  reserved_call-Routed :
      (p : Provider) (q : Request) (b : Budget) (id : String) (f : LedgerFile)
      (out : Option (BudgetResult × Ledger))
      → ((r : BudgetResult) (l : Ledger)
          → out ≡ some (r, l)
          → reserve_file digest b id p.provider_id q.limits q.day f ≡ some (r, l))
      → Routed f (reserved_call digest p q id out f)
  reserved_call-Routed p q b id f none h = uncalled _ f (λ other t. t)
  reserved_call-Routed p q b id broken (some (r, l)) h = absurd (not_some (h r l refl))
  reserved_call-Routed p q b id (reads l₀) (some (r, l)) h =
      let e = reserve-consume b id p.provider_id q.limits q.day l₀ (r, l) (h r l refl) in
      let ask = ask_of b id p.provider_id q.limits q.day in
      admitted_call-Routed p q id r (reads l₀) l
        (λ other t. consume-keeps digest b ask l₀ l r other e t)
        (λ allowed t. true_not_false allowed (consume-Taken digest b ask l₀ l r id e refl t))
        (λ allowed. consume-Reserved digest b ask l₀ l r id e refl allowed)

  pub unless_fails :
      (fails : Bool) (m : Option (BudgetResult × Ledger)) (r : BudgetResult) (l : Ledger)
      → (if fails then none else m) ≡ some (r, l)
      → m ≡ some (r, l)
  unless_fails true m r l h = cc
  unless_fails false m r l h = h

  with_ledger-Routed :
      (p : Provider) (q : Request) (o : Option Budget) (f : LedgerFile)
      → Routed f (with_ledger digest p q o f)
  with_ledger-Routed p q none f = uncalled _ f (λ other t. t)
  with_ledger-Routed p q (some b) f =
      reserved_call-Routed p q b (attempt_of q) f _ (unless_fails q.reserve_fails _)

  route-Routed :
      (r : Router) (q : Request) (p : Provider) (f : LedgerFile) → Routed f (route digest r q p f)
  unfolding route
  route-Routed r q p f =
      if_elim (Routed f) (str_eq p.locality "cloud") (uncalled _ f (λ other t. t))
        (with_ledger-Routed p q (ledger_for r q.limits) f)

  -- What a call gives is routed.
  pub generate-Routed :
      (r : Router) (q : Request) (f : LedgerFile) → AllOk (Routed f) (generate digest r q f)
  unfolding generate
  generate-Routed r q f =
      if_elim (AllOk (Routed f)) (str_eq q.stage "") tt
        (chain-AllOk (Routed f) (selected r) _ (λ p. route-Routed r q p f))
