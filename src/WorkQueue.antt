-- ===== src/WorkQueue.antt =====
-- The durable queue of materialization tasks: enterprise/control/work_queue.py, with the states
-- and messages of enterprise/control/contract.py. A queue record is a value in place of its JSON
-- text, and every write succeeds: a write that fails raises and is the end of the call.
pub mod Task
pub mod Steps
pub mod Queue
pub mod Changes
pub mod Runnable
pub mod Identity
pub mod Create
pub mod Answers
pub mod Checks
pub mod Results
pub mod Membership
pub mod History
pub mod Recover
pub mod Prune
pub mod Publish
pub mod Snapshot
