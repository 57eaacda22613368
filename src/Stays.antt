-- ===== src/Stays.antt =====
-- Stays: src/modules/tenant-stays. Check-in, edits, room changes, codes, manual and automatic
-- check-out, with what keeps two guests out of one room.
pub mod Issued
pub mod Codes
pub mod Shared
pub mod CheckIn
pub mod Edits
pub mod Moves
pub mod AutoCheckout
pub mod Changes
pub mod Frame
pub mod Handlers
pub mod Unique
pub mod Final
pub mod Reach
pub mod Departure
pub mod Arrival
