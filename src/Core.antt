-- ===== src/Core.antt =====
-- The crate crates/netperf-core.
pub mod Stats
pub mod Sort
pub mod Dist
pub mod Ui
pub mod LatencyUi
