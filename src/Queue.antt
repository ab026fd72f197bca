-- ===== src/Queue.antt =====
-- src/ei/queue.py: the durable queue of captured candidates. The states and the table, the item and
-- its wire form, the directory of items, and the operations that a process runs under the lock.
pub mod State
pub mod Item
pub mod Directory
pub mod Transition
pub mod Claim
pub mod Enqueue
pub mod Reads
pub mod Change
pub mod Scan
pub mod Run
pub mod Additions
pub mod History
pub mod Progress
mod Tests
pub mod Steps
pub mod Follows
