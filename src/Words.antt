-- ===== src/Words.antt =====
-- HW3, word transport: words arrive on the floors of a building, letter carriers bring their letters
-- to the sorting floor one by one, and sorting processes put them in order.
pub mod Word
pub mod Floors
pub mod Elevator
pub mod Input
mod Tests
