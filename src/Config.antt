-- ===== src/Config.antt =====
-- The editorial configuration and its contracts (src/mx_bank_monitor/config/models.py).
pub mod Unique
pub mod Ranges
pub mod Pairs
pub mod Errors
pub mod Sources
pub mod Institutions
pub mod Concepts
pub mod Metrics
pub mod Bundle
pub mod Days
pub mod Resolved
mod Tests
