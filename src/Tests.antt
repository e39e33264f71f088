-- ===== src/Tests.antt =====
-- The theorems at concrete inputs.
mod Sample
mod Market
mod Strategy
mod Signals
mod Backtesting
mod Services
mod System
mod Concurrent
mod Deletion
