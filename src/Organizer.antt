-- ===== src/Organizer.antt =====
-- src/ei/organizer_recovery.py: the durable hold of one organizer. Its state and its file, a run of
-- the organizer, the requests to retry, and a verified recovery.
pub mod State
pub mod Run
pub mod Request
pub mod Validity
pub mod Cooldown
pub mod Promises
pub mod Probes
pub mod Retry
pub mod Binding
pub mod Again
pub mod Recovery
pub mod Lifetime
pub mod Lockout
mod Tests
