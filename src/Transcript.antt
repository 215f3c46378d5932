-- ===== src/Transcript.antt =====
-- internal/transcript: what the wrapper reads out of claude's JSONL transcript.
pub mod Probe
pub mod Tokens
pub mod Scan
pub mod Result
mod Examples
pub mod Status
pub mod ToolName
pub mod Outcome
pub mod Lines
pub mod Queue
pub mod Labels
pub mod Tailer
