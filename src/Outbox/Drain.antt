-- ===== src/Outbox/Drain.antt =====
-- `drain_team_outbox` and `list_team_outbox` of src/ei/team_outbox.py.
use portable_external_intell.Prelude.{
  List, Option, Result, String, [], err, if◌then◌else◌, leb, length, ltb, none, not, ok, some, ℕ,
  ◌&&◌, ◌++◌, ◌+◌, ◌∷◌,
}
use portable_external_intell.Outbox.State.{
  Digests, Effect, Receipt, Surroundings, World, apply_all, waits,
}
use portable_external_intell.Outbox.Deliver.{
  Count, as_deferred, as_delivered, as_failed, handle_receipt, uncounted,
}

pub data DrainStatus : Type 0 where
  disabled drained_deferred drained_failed drained_delivered drained_empty : DrainStatus

pub record Counts : Type 0 where
  pub attempted : ℕ
  pub delivered : ℕ
  pub deferred : ℕ
  pub failed : ℕ

pub record Drained : Type 0 where
  pub status : DrainStatus
  pub counts : Counts
  pub remaining : ℕ
  pub errors : List (String × String)

abbrev pub no_counts : Counts
no_counts = record { attempted = 0; delivered = 0; deferred = 0; failed = 0 }

unfoldable pub counted : Count → Counts → Counts
counted uncounted c = c
counted as_delivered c = record c { attempted = c.attempted + 1; delivered = c.delivered + 1 }
counted as_deferred c = record c { attempted = c.attempted + 1; deferred = c.deferred + 1 }
counted as_failed c = record c { attempted = c.attempted + 1; failed = c.failed + 1 }

-- `_records`
abbrev pub records : List (String × Receipt) → List Receipt
records [] = []
records ((id, r) ∷ rest) = r ∷ records rest

abbrev pub waiting : List Receipt → List Receipt
waiting [] = []
waiting (r ∷ rest) = let below = waiting rest in if waits r.status then r ∷ below else below

-- `list_team_outbox`
unfoldable pub list_team_outbox : World → ℕ × List Receipt
list_team_outbox w = let found = waiting (records w.receipts) in (length found, found)

abbrev pub drain_status : Counts → DrainStatus
drain_status c =
    if ltb 0 c.deferred && not (ltb 0 c.failed)
    then drained_deferred
    else if ltb 0 c.failed
    then drained_failed
    else if ltb 0 c.delivered
    then drained_delivered
    else drained_empty

abbrev pub error_of : Receipt → Option String → List (String × String)
error_of r none = []
error_of r (some code) = (r.receipt_id, code) ∷ []

module _ (d : Digests) (s : Surroundings) (max_items : ℕ) where
  -- The loop over the receipts: the effects of all, the counts and the errors.
  unfoldable pub drain_loop :
      List Receipt → Counts → World → List Effect × Counts × List (String × String)
  drain_loop [] c w = ([], c, [])
  drain_loop (r ∷ rest) c w =
      let o = handle_receipt d s (ltb c.attempted max_items) r w in
      let (es, counts, errors) = drain_loop rest (counted o.count c) (apply_all o.effects w) in
      (o.effects ++ es, counts, error_of r o.reason ++ errors)

  -- `drain_team_outbox`
  unfoldable pub drain_team_outbox : World → List Effect × Result String Drained
  drain_team_outbox w =
      if not (leb 1 max_items && leb max_items 10000)
      then ([], err "TEAM_OUTBOX_MAX_ITEMS_INVALID")
      else if not s.configured
      then ([], ok (record { status = disabled; counts = no_counts; remaining = 0; errors = [] }))
      else let (es, counts, errors) = drain_loop (records w.receipts) no_counts w in
        (
          es,
          ok (record {
            status = drain_status counts;
            counts = counts;
            remaining = (list_team_outbox (apply_all es w)).0;
            errors = errors;
          }),
        )
