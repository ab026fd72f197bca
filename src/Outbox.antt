-- ===== src/Outbox.antt =====
-- The outbox of src/ei/team_outbox.py for events that go to a team.
mod State
mod Enqueue
mod Release
mod Kept
mod Found
mod Handled
mod Snapshot
mod Trace
mod Tests
mod Deliver
mod Drain
