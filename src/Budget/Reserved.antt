-- ===== src/Budget/Reserved.antt =====
-- What the calls of src/ei/inference/budget.py keep of the reservations: one that is there stays.
use portable_external_intell.Prelude.{
  AllOk, List, Option, String, chain-AllOk, false, if_elim, is_some, lookup, lookup-insert, none,
  not, ok, refl, some, str_eq, subst, true, ◌≡◌,
}
use portable_external_intell.Budget.Ledger.{Counter, Ledger, Policy, Reservation}
use portable_external_intell.Budget.Consume.{Ask, Budget, BudgetResult, Checked, consume}
use portable_external_intell.Budget.Settle.{
  ProviderResult, actual, adjust_section, settle, settle_found, settle_row, written,
}
use portable_external_intell.Budget.Caps.{Outcome, admitted, consume-Outcome, refused}
use portable_external_intell.Budget.Attempts.{outcome-Reserved, outcome-Taken, own_attempt, stays}

-- The ledger has a reservation of the attempt.
abbrev pub Reserved : String → Ledger → Type 0
Reserved id l = is_some (lookup id l.reservations) ≡ true

pub consume-Reserved :
    (digest : String → String) (b : Budget) (a : Ask) (l after : Ledger) (r : BudgetResult)
    (id : String)
    → consume digest b a l ≡ ok (r, after)
    → a.attempt_id ≡ some id
    → r.allowed ≡ true
    → Reserved id after
consume-Reserved digest b a l after r id h k allowed =
    let (c, e, o) = consume-Outcome digest b a l (r, after) h in
    outcome-Reserved b.policy c l (r, after) id o allowed (own_attempt digest b a e k)

pub consume-Taken :
    (digest : String → String) (b : Budget) (a : Ask) (l after : Ledger) (r : BudgetResult)
    (id : String)
    → consume digest b a l ≡ ok (r, after)
    → a.attempt_id ≡ some id
    → Reserved id l
    → r.allowed ≡ false
consume-Taken digest b a l after r id h k there =
    let (c, e, o) = consume-Outcome digest b a l (r, after) h in
    outcome-Taken b.policy c l (r, after) id o there (own_attempt digest b a e k)

outcome-keeps :
    (p : Policy) (c : Checked) (l : Ledger) (out : BudgetResult × Ledger) (id : String)
    → Outcome p c l out
    → Reserved id l
    → Reserved id out.1
outcome-keeps p c l _ id (refused r e) h = h
outcome-keeps p c l _ id (admitted r y a e) h = stays id p c l a e h

pub consume-keeps :
    (digest : String → String) (b : Budget) (a : Ask) (l after : Ledger) (r : BudgetResult)
    (id : String)
    → consume digest b a l ≡ ok (r, after)
    → Reserved id l
    → Reserved id after
consume-keeps digest b a l after r id h there =
    let (c, e, o) = consume-Outcome digest b a l (r, after) h in
    outcome-keeps b.policy c l (r, after) id o there

-- Where the ledger reads, it has the reservation.
abbrev ReservedIn : String → Option Ledger → Type 0
ReservedIn id none = Unit
ReservedIn id (some l) = Reserved id l

written-keeps :
    (id other : String) (row : Reservation) (l : Ledger)
    (entries runs candidates : Option (List (String × Counter)))
    → Reserved other l
    → ReservedIn other (written id row l entries runs candidates)
unfolding written
written-keeps id other row l (some entries) (some runs) (some candidates) h =
    rw (lookup-insert)
      (if_elim (λ (o : Option Reservation). is_some o ≡ true) (str_eq id other) refl h)
written-keeps id other row l none runs candidates h = tt
written-keeps id other row l (some entries) none candidates h = tt
written-keeps id other row l (some entries) (some runs) none h = tt

settle_row-keeps :
    (id other : String) (r : ProviderResult) (row : Reservation) (l : Ledger)
    → Reserved other l
    → AllOk (ReservedIn other) (settle_row id r row l)
unfolding settle_row
settle_row-keeps id other r row l h =
    chain-AllOk (ReservedIn other) (adjust_section false row.entry_key (actual r row) row l.entries)
      _
      (λ entries.
        chain-AllOk (ReservedIn other) (adjust_section true row.run_key (actual r row) row l.runs) _
          (λ runs.
            chain-AllOk (ReservedIn other)
              (adjust_section false row.candidate_key (actual r row) row l.candidates) _
              (λ candidates. written-keeps id other row l entries runs candidates h)))

settle_found-keeps :
    (id other : String) (r : ProviderResult) (o : Option Reservation) (l : Ledger)
    → Reserved other l
    → AllOk (ReservedIn other) (settle_found id r o l)
unfolding settle_found
settle_found-keeps id other r none l h = tt
settle_found-keeps id other r (some row) l h =
    if_elim (AllOk (ReservedIn other)) (not (str_eq row.provider_id r.provider_id)) tt
      (if_elim (AllOk (ReservedIn other)) row.settled h (settle_row-keeps id other r row l h))

pub settle-keeps :
    (id other : String) (r : ProviderResult) (l after : Ledger)
    → settle id r l ≡ ok (some after)
    → Reserved other l
    → Reserved other after
unfolding settle
settle-keeps id other r l after h there =
    subst (AllOk (ReservedIn other)) h
      (settle_found-keeps id other r (lookup id l.reservations) l there)
