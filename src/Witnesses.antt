-- ===== src/Witnesses.antt =====
-- Concrete inputs at which the theorems with hypotheses apply: a database, a time zone, a hotel.
pub mod Database
pub mod Samples
pub mod Housekeeping
pub mod Stays
pub mod Dates
pub mod Charges
pub mod Lists
pub mod Guests
pub mod News
pub mod Events
pub mod Subscriptions
