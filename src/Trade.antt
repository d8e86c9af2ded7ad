-- ===== src/Trade.antt =====
-- Final, the trading server: clients join as traders or analysts over TCP; traders buy and sell, which
-- moves the prices, and the server broadcasts them.
pub mod Market
pub mod Session
pub mod Server
mod Tests
