-- ===== src/Tests.antt =====
-- Runs on small data, and the theorems at such data.
mod Lease
mod DataPlane
mod Control
mod Card
mod Routing
mod Transfer
mod Session
mod Discovery
mod Writer
