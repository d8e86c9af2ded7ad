-- ===== src/Hogwarts.antt =====
-- HW6, the ingredient server: clients enrol as wizards or professors over TCP, and wizards brew and
-- consume ingredients of a common stock.
pub mod Stock
pub mod Command
pub mod Session
mod Tests
