-- ===== src/Outbox/Trace.antt =====
-- Sequences of enqueues and drains with crashes between any two writes (src/ei/team_outbox.py).
use portable_external_intell.Prelude.{List, [], take, ℕ}
use portable_external_intell.Outbox.State.{
  Digests, Effect, Filed, Surroundings, Team, World, apply_all,
}
use portable_external_intell.Outbox.Enqueue.{Enqueued, enqueue_team_event}
use portable_external_intell.Outbox.Drain.{drain_team_outbox}
use portable_external_intell.Outbox.Kept.{IsFiled}

-- What acts on the outbox: an event that is given to it, or a drain.
pub data Call : Type 0 where
  enqueues : (now : ℕ) (q : Enqueued) → Call
  drains : (s : Surroundings) (max_items : ℕ) → Call

abbrev pub no_receipts : Team → World
no_receipts team = record { receipts = []; spool = []; team = team }

module _ (d : Digests) where
  unfoldable pub effects_of : Call → World → List Effect
  effects_of (enqueues now q) w = (enqueue_team_event d now q w).0
  effects_of (drains s max_items) w = (drain_team_outbox d s max_items w).0

  -- From no receipts: a call makes the first `n` of its writes, all of them or, in a crash, fewer; or others
  -- change the team store, and leave the events that are filed in it.
  pub data Steps (team : Team) : World → Type 0 where
    fresh : Steps team (no_receipts team)
    calls :
        {w : World} (x : Call) (n : ℕ)
        → Steps team w
        → Steps team (apply_all (take n (effects_of x w)) w)
    meanwhile :
        {w : World} (t : Team)
        → ((f : Filed) → IsFiled f w.team.events → IsFiled f t.events)
        → Steps team w
        → Steps team (record w { team = t })
