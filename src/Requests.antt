-- ===== src/Requests.antt =====
-- Guest requests: src/modules/requests. Their life under the staff's hands and the guest's.
pub mod Service
pub mod Changes
pub mod Handlers
pub mod Reach
