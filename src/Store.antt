-- ===== src/Store.antt =====
-- src/ocr_engine/repo/store.py: the data access that the api, worker and outbox processes share.
pub mod Rows
pub mod Table
pub mod Documents
pub mod Outbox
pub mod Submit
pub mod Retention
pub mod Steps
pub mod Finish
pub mod Atomicity
pub mod Lookup
