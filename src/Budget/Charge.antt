-- ===== src/Budget/Charge.antt =====
-- What an admitted call of src/ei/inference/budget.py adds to the totals that the caps bound.
use Prim.Native.String.{◌++◌ as ◌⧺◌}
use text.Mathlib.Text.{starts_with}
use text.Mathlib.TextPositions.{starts_with-append}
use portable_external_intell.Prelude.{
  Bool-cases, Option, String, arith, eq_refl, false, inl, inr, lookup, lookup-insert_self, none,
  refl, some, str_eq, sym, true, ◌+◌, ◌≡◌, ◌≤◌,
}
use portable_external_intell.Budget.Ledger.{Amount, Counter, Ledger, add, counter, counter_or_new}
use portable_external_intell.Budget.Consume.{
  Checked, candidate_total, charged, day_total, entry_key, of_day, of_run, own_entry, own_run,
  run_key, run_prefix, run_total,
}
use portable_external_intell.Budget.Totals.{
  Field, get, get-add, get-new, old_share, part, share, total-insert,
}

-- A counter that starts again has counted nothing for the day.
old_share-counter :
    (f : Field) (day key : String) (o : Option Counter)
    → old_share (of_day day) day f key o ≡ get f (counter o day)
old_share-counter f day key none = sym (get-new f)
old_share-counter f day key (some c) = elim (Bool-cases (str_eq c.day day)) [
  | inl e ↦ rw e refl
  | inr e ↦ rw e (sym (get-new f))
]

share-own :
    (f : Field) (day key : String) (c : Counter) (a : Amount)
    → share (of_day day) day f key (add c a day) ≡ get f c + part f a
share-own f day key c a = rw (eq_refl day) (get-add f c a day)

-- The total of the day grows by what was asked, exactly.
pub day_total-charged :
    (f : Field) (c : Checked) (l : Ledger)
    → get f (day_total c.day (charged c l)) ≡ get f (day_total c.day l) + part f c.wanted
unfolding charged
day_total-charged f c l =
    let sum =
      total-insert (of_day c.day) c.day f (entry_key c) (add (own_entry c l) c.wanted c.day)
        l.entries in
    let old = old_share-counter f c.day (entry_key c) (lookup (entry_key c) l.entries) in
    omega (arith, sum, old, share-own f c.day (entry_key c) (own_entry c l) c.wanted)

-- The charge of one day adds nothing to the total of another.
pub other_day-charged :
    (f : Field) (c : Checked) (l : Ledger) (day : String)
    → str_eq c.day day ≡ false
    → get f (day_total day (charged c l)) ≤ get f (day_total day l)
unfolding charged
other_day-charged f c l day other =
    let sum =
      total-insert (of_day day) day f (entry_key c) (add (own_entry c l) c.wanted c.day)
        l.entries in
    let none_of : share (of_day day) day f (entry_key c) (add (own_entry c l) c.wanted c.day) ≡ 0 =
      rw other refl in
    omega (arith, sum, none_of)

old_share-run :
    (f : Field) (prefix day key : String) (o : Option Counter)
    → starts_with key prefix ≡ true
    → old_share (of_run prefix) day f key o ≡ get f (counter_or_new o)
old_share-run f prefix day key none h = sym (get-new f)
old_share-run f prefix day key (some c) h = rw h refl

-- So does the total of the run.
pub run_total-charged :
    (f : Field) (c : Checked) (l : Ledger)
    → get f (run_total c (charged c l)) ≡ get f (run_total c l) + part f c.wanted
unfolding charged
run_total-charged f c l =
    let own : starts_with (run_key c) (run_prefix c) ≡ true =
      starts_with-append (run_prefix c) (c.provider_id ⧺ "|" ⧺ c.purpose) in
    let sum =
      total-insert (of_run (run_prefix c)) c.day f (run_key c) (add (own_run c l) c.wanted c.day)
        l.runs in
    let old = old_share-run f (run_prefix c) c.day (run_key c) (lookup (run_key c) l.runs) own in
    let new_share : share (of_run (run_prefix c)) c.day f (run_key c)
          (add (own_run c l) c.wanted c.day)
        ≡ get f (own_run c l) + part f c.wanted =
      rw own (get-add f (own_run c l) c.wanted c.day) in
    omega (arith, sum, old, new_share)

-- And the counter of the candidate.
pub candidate_total-charged :
    (f : Field) (c : Checked) (l : Ledger)
    → get f (candidate_total c (charged c l)) ≡ get f (candidate_total c l) + part f c.wanted
unfolding charged
candidate_total-charged f c l =
    rw
      (
        lookup-insert_self c.candidate_key (add (candidate_total c l) c.wanted c.day) l.candidates,
        eq_refl c.day,
      )
      (get-add f (candidate_total c l) c.wanted c.day)
