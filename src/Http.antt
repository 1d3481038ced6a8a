-- ===== src/Http.antt =====
-- The HTTP client that retrieves artifacts (src/mx_bank_monitor/ingestion/http.py).
pub mod Headers
pub mod Network
pub mod Body
pub mod Client
pub mod Artifact
pub mod Bounded
pub mod Outcome
pub mod Steps
pub mod Hops
pub mod Retrieval
pub mod Quiet
pub mod Contacted
mod Tests
