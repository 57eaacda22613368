-- ===== src/Housekeeping.antt =====
-- Room cleanliness: src/modules/housekeeping. The transition matrix, the staff actions, the guest's
-- Do-Not-Disturb toggle, the vacate hook and the daily job, with what they keep true of a room.
pub mod Transitions
pub mod Rooms
pub mod Actions
pub mod Hooks
pub mod Daily
pub mod Staff
pub mod Controller
pub mod Sound
pub mod Isolation
pub mod System
pub mod Reach
pub mod Vacated
