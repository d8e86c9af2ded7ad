-- ===== src/Cargo.antt =====
-- HW5, the cargo shift: orders, their priority queue, the input parser and the couriers.
pub mod Order
pub mod Queue
pub mod Parser
pub mod Options
pub mod Stats
pub mod Shift
mod Tests
