-- ===== src/Lifecycle.antt =====
-- src/ei/lifecycle.py: when a cluster becomes a pattern, when a pattern is deprecated and removed, and
-- which patterns are always shown.
pub mod State
pub mod Evaluate
pub mod AlwaysOn
pub mod Rules
pub mod Decisions
pub mod Selection
mod Tests
