-- ===== src/Signals.antt =====
-- apps/signals: signals, and their delivery to the recipients.
pub mod Models
pub mod Messages
pub mod Services
pub mod Channels
pub mod Tasks
