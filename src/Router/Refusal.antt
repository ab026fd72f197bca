-- ===== src/Router/Refusal.antt =====
-- What the flag of a refused admission in a reply of src/ei/inference/router.py proves.
use portable_external_intell.Prelude.{
  AllOk, Bool, Option, String, [], ap, arith, chain-AllOk, false, if_elim, if_split, leb, none, not,
  ok, refl, some, str_eq, subst, true, ◌≡◌,
}
use portable_external_intell.Budget.Ledger.{Ledger, Policy}
use portable_external_intell.Budget.Consume.{Ask, Budget, BudgetResult, Checked, consume}
use portable_external_intell.Budget.Caps.{Outcome, admitted, consume-Outcome, refused}
use portable_external_intell.Router.Choice.{Provider, Router, selected}
use portable_external_intell.Router.Generate.{
  Generated, LedgerFile, Reply, Request, admitted_call, attempt_of, broken, called, generate,
  ledger_for, reads, reply_settled, reserve_file, reserved_call, result_of, route, with_ledger,
}
use portable_external_intell.Router.Attempts.{not_some, reserve-consume, unless_fails}

-- A flag is set only where nothing was called and the ledger is as it was.
abbrev Proven : LedgerFile → Generated → Type 0
Proven f g = g.reply.admission_refused ≡ true → (g.calls ≡ []) × (g.file ≡ f)

not-true : (b : Bool) → not b ≡ true → b ≡ false
not-true b h = ground (arith, h)

refused-same :
    (p : Policy) (c : Checked) (l : Ledger) (out : BudgetResult × Ledger)
    → Outcome p c l out
    → (out.0).allowed ≡ false
    → out.1 ≡ l
refused-same p c l _ (refused r e) h = refl
refused-same p c l _ (admitted r y a e) h = cc

module _ (digest : String → String) where
  consume-same :
      (b : Budget) (a : Ask) (l after : Ledger) (r : BudgetResult)
      → consume digest b a l ≡ ok (r, after)
      → r.allowed ≡ false
      → after ≡ l
  consume-same b a l after r h refused_it =
      let (c, e, o) = consume-Outcome digest b a l (r, after) h in
      refused-same b.policy c l (r, after) o refused_it

  reply_settled-Proven :
      (p : Provider) (result : Reply) (id : String) (settled : Option LedgerFile) (f g : LedgerFile)
      → Proven f (reply_settled p result id settled g)
  reply_settled-Proven p result id none f g flag = cc
  reply_settled-Proven p result id (some h) f g flag = cc

  admitted_call-Proven :
      (p : Provider) (q : Request) (id : String) (r : BudgetResult) (f : LedgerFile) (l : Ledger)
      → (r.allowed ≡ false → reads l ≡ f)
      → Proven f (admitted_call digest p q id r (reads l))
  unfolding admitted_call called
  admitted_call-Proven p q id r f l same =
      if_split (Proven f) (not r.allowed)
        (λ refused_it flag. (refl, same (not-true r.allowed refused_it)))
        (λ allowed.
          if_elim (Proven f) (leb q.limits.deadline_ms q.elapsed_ms) (λ flag. cc)
            (reply_settled-Proven p (result_of p q.outcome) id _ f _))

  reserved_call-Proven :
      (p : Provider) (q : Request) (b : Budget) (id : String) (f : LedgerFile)
      (out : Option (BudgetResult × Ledger))
      → ((r : BudgetResult) (l : Ledger)
          → out ≡ some (r, l)
          → reserve_file digest b id p.provider_id q.limits q.day f ≡ some (r, l))
      → Proven f (reserved_call digest p q id out f)
  reserved_call-Proven p q b id f none h = λ flag. cc
  reserved_call-Proven p q b id broken (some (r, l)) h = absurd (not_some (h r l refl))
  reserved_call-Proven p q b id (reads l₀) (some (r, l)) h =
      let e = reserve-consume digest b id p.provider_id q.limits q.day l₀ (r, l) (h r l refl) in
      admitted_call-Proven p q id r (reads l₀) l
        (λ refused_it. ap reads (consume-same b _ l₀ l r e refused_it))

  with_ledger-Proven :
      (p : Provider) (q : Request) (o : Option Budget) (f : LedgerFile)
      → Proven f (with_ledger digest p q o f)
  with_ledger-Proven p q none f = λ flag. cc
  with_ledger-Proven p q (some b) f =
      reserved_call-Proven p q b (attempt_of q) f _ (unless_fails digest q.reserve_fails _)

  generate-Proven :
      (r : Router) (q : Request) (f : LedgerFile) → AllOk (Proven f) (generate digest r q f)
  unfolding generate route
  generate-Proven r q f = if_elim (AllOk (Proven f)) (str_eq q.stage "") tt (
      chain-AllOk (Proven f) (selected r) _ (λ p.
        if_elim (Proven f) (str_eq p.locality "cloud") (λ flag. cc)
          (with_ledger-Proven p q (ledger_for r q.limits) f)))

  -- A reply that says that the admission was refused is the router's own word, whatever flag the provider's
  -- result has: no provider was called, and the ledger is as it was.
  pub refusal-proves :
      (r : Router) (q : Request) (f : LedgerFile) (g : Generated)
      → generate digest r q f ≡ ok g
      → g.reply.admission_refused ≡ true
      → (g.calls ≡ []) × (g.file ≡ f)
  refusal-proves r q f g h flag = subst (AllOk (Proven f)) h (generate-Proven r q f) flag
