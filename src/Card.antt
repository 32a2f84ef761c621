-- ===== src/Card.antt =====
-- The transfer card: src-tauri/src/transfer_state.rs and crates/localtrans-ffi/src/transfer_state.rs.
pub mod Desktop
pub mod Ffi
pub mod Equivalence
pub mod Machine
