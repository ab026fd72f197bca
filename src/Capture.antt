-- ===== src/Capture.antt =====
-- src/ei/capture_ledger.py and src/ei/capture_contract.py: the receipts of what was captured, and how
-- two receipts of one capture are merged.
pub mod Receipt
pub mod Record
pub mod Merging
pub mod Kept
mod Tests
