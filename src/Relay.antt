-- ===== src/Relay.antt =====
-- The relay: crates/localtrans-relay and its client half in crates/localtrans-core/src/relay.
pub mod Proto
pub mod Lease
pub mod DataPlane
pub mod VirtualUdp
pub mod Control
pub mod Requests
pub mod Slots
