-- ===== src/Session.antt =====
-- crates/localtrans-core/src/session.rs: the control stream of a session. Its child modules hold the
-- frames of the stream, the pairing of two devices and the answers to requests.
pub mod Stream
pub mod Rpc
pub mod Pairing
pub mod Gate
pub mod Incoming
pub mod Control
pub mod History
