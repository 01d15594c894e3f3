-- ===== src/P2.antt =====
-- The crate crates/netperf-p2.
pub mod Data
pub mod Control
pub mod Result
pub mod Transport
pub mod NetUtils
pub mod Runtime
pub mod PerfTest
pub mod Controller
pub mod StreamWorker
pub mod Server
pub mod Client
pub mod Session
pub mod Program
