-- ===== src/Subscriptions.antt =====
-- src/modules/subscriptions and src/modules/tenant-access: the plan that a hotel is on, its trial, and
-- the access that follows from them.
pub mod Cycle
pub mod Rows
pub mod Service
pub mod Trials
pub mod Access
pub mod Changes
pub mod Handlers
pub mod Single
pub mod History
pub mod Reach
pub mod Change
pub mod Daily
pub mod Standing
pub mod Refused
