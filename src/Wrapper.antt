-- ===== src/Wrapper.antt =====
-- cmd/wrapper: what the program does once a turn has ended.
pub mod Repos
pub mod Reprompt
pub mod Payload
pub mod Turn
pub mod Finalize
pub mod Safety
mod Examples
