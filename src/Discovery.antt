-- ===== src/Discovery.antt =====
-- Release discovery: identity, lineage and classification (src/mx_bank_monitor/ingestion/discovery.py).
pub mod Errors
pub mod Patterns
pub mod Summary
pub mod Contracts
pub mod Records
pub mod Releases
pub mod Identity
pub mod Lineage
pub mod Observe
pub mod Classify
mod Tests
