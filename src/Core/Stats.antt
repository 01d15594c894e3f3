-- ===== src/Core/Stats.antt =====
-- crates/netperf-core/src/stats.rs: the result types that both builds exchange.
use netperf.Prelude.{ℕ, Bool, List, Option}

pub data Direction : Type 0 where
  client_to_server server_to_client bidirectional : Direction

pub Direction-discrete : Discrete Direction
Direction-discrete = hlevel

-- All fields are `u64`.
pub record Dist : Type 0 where
  pub count : ℕ
  pub min : ℕ
  pub p50 : ℕ
  pub p90 : ℕ
  pub p99 : ℕ
  pub p100 : ℕ
  pub mean : ℕ

pub record LatencyStats : Type 0 where
  pub interval_ns : Dist
  pub throughput_bps : Dist
  pub clock_baseline_ns : ℕ
  pub warmup_discarded : ℕ

pub record StreamStats : Type 0 where
  pub sender : Bool
  pub duration_millis : ℕ
  pub bytes_transferred : ℕ
  pub syscalls : ℕ
  pub latency : Option LatencyStats

-- A `HashMap<usize, StreamStats>` as the list of its entries, in the order of iteration.
pub record TestResults : Type 0 where
  pub streams : List (ℕ × StreamStats)
