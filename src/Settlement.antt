-- ===== src/Settlement.antt =====
-- Room charges at check-out: src/modules/stay-settlement, with the two sources
-- src/modules/fnb/fnb-settlement-source.ts and src/modules/events/event-settlement-source.ts.
pub mod Lines
pub mod Orders
pub mod Bookings
pub mod Sources
pub mod Service
pub mod FnbRoute
pub mod Cleared
pub mod Kept
