-- ===== src/Strategy.antt =====
-- apps/strategy: user-authored strategies, their evaluation, and the audit rows.
pub mod Schema
pub mod Operators
pub mod Indicators
pub mod Engine
pub mod Models
pub mod Tasks
