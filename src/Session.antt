-- ===== src/Session.antt =====
-- internal/session: the manager of the one claude process, in sections that each hold its lock.
pub mod State
pub mod Slot
pub mod Submit
pub mod Hook
pub mod Resume
pub mod Recover
pub mod Control
pub mod Activity
pub mod Ring
pub mod Step
pub mod Move
pub mod Ledger
pub mod Accounting
pub mod Admission
pub mod Upkeep
pub mod Turns
pub mod Isolation
pub mod Recovery
pub mod Examples
