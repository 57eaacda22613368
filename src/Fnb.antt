-- ===== src/Fnb.antt =====
-- Food and beverage: src/modules/fnb. Menu windows, prices, and the life of an order.
pub mod Rows
pub mod Availability
pub mod Pricing
pub mod Orders
pub mod Changes
pub mod Handlers
pub mod Life
pub mod Reach
