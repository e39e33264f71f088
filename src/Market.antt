-- ===== src/Market.antt =====
-- apps/market: the tracked symbols and the candles ingested for them.
pub mod Models
pub mod Binance
pub mod Tasks
