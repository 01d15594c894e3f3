-- ===== src/P3.antt =====
-- The crate crates/netperf-p3.
pub mod Roles
pub mod Frames
pub mod Transfer
pub mod Session
pub mod Run
