-- ===== src/Budget.antt =====
-- src/ei/inference/budget.py: the ledger that admits calls of a provider within the policy's caps, and
-- the settlement of what a call really used.
pub mod Ledger
pub mod Consume
pub mod Totals
pub mod Charge
pub mod Caps
pub mod Limits
pub mod Attempts
pub mod Settle
pub mod Reserved
mod Tests
