-- ===== src/Turn.antt =====
-- internal/turn: one record for each user turn, and their store.
pub mod Records
pub mod Store
pub mod Laws
pub mod Frame
pub mod Listing
pub mod Closing
