-- ===== src/Storage.antt =====
-- The content-addressed artifact stores (src/mx_bank_monitor/ingestion/artifacts.py).
pub mod Errors
pub mod Keys
pub mod Payloads
pub mod Action
pub mod FileSystem
pub mod Local
pub mod Urls
pub mod Server
pub mod Remote
pub mod Contract
mod Tests
