-- ===== src/Model.antt =====
-- The data model: one child per group of entities.
pub mod People
pub mod Rooms
pub mod Stays
pub mod Charges
pub mod Events
pub mod Requests
pub mod Subscriptions
pub mod Effects
