-- ===== src/Transcript/Tailer.antt =====
-- internal/transcript/tailer.go: the tailer of one transcript.
pub mod State
pub mod Steps
pub mod Line
pub mod Quiet
pub mod Closed
pub mod Known
pub mod Tasks
pub mod Bounds
pub mod Ledger
pub mod Issues
pub mod Drain
mod Examples
