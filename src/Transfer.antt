-- ===== src/Transfer.antt =====
-- The transfer of files: crates/localtrans-core/src/transfer.
pub mod Manifest
pub mod Names
pub mod Writer
pub mod Streams
pub mod Jobs
pub mod Inbox
