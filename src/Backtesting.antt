-- ===== src/Backtesting.antt =====
-- apps/backtesting: replaying a strategy over a range of candles.
pub mod Models
pub mod Tasks
