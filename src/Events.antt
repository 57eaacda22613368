-- ===== src/Events.antt =====
-- src/modules/events: events that the hotel publishes, and the seats that guests book in them.
pub mod Time
pub mod Rows
pub mod Guests
pub mod Manage
pub mod Scheduler
pub mod Changes
pub mod Handlers
pub mod Seats
pub mod Life
pub mod Reach
pub mod Booking
