-- ===== src/Tests/Ui.antt =====
-- Summaries of two streams.
use netperf.Prelude.{
  ℕ, ◌≡◌, refl, Bool, true, false, Option, none, some, List, [], ◌∷◌, ◌++◌, arith,
}
use netperf.Core.Stats.{StreamStats, LatencyStats, TestResults, client_to_server}
use netperf.Core.Dist.{from_samples}
use netperf.Core.Ui.{Totals, sum_lines, print_summary}
use netperf.Core.LatencyUi.{LatencyLine, print_latency_summary}
use netperf.Core.Ui.Sums.{IsTotal, lines_of, print_summary-IsTotal}
use netperf.Core.LatencyUi.Lines.{at, both_sides, at-print_latency_summary}

abbrev stats : Bool → ℕ → ℕ → Option LatencyStats → StreamStats
stats sender millis bytes latency = record {
  sender = sender;
  duration_millis = millis;
  bytes_transferred = bytes;
  syscalls = 1;
  latency = latency;
}

abbrev latency : LatencyStats
latency = record {
  interval_ns = from_samples (3 ∷ 1 ∷ 2 ∷ []);
  throughput_bps = from_samples [];
  clock_baseline_ns = 7;
  warmup_discarded = 0;
}

abbrev local : TestResults
local = record {
  streams = (0, stats true 1000 4096 (some latency)) ∷ (1, stats true 1200 1024 none) ∷ [];
}

abbrev remote : TestResults
remote = record {
  streams = (2, stats false 900 10 (some latency)) ∷ (0, stats false 1001 4000 (some latency)) ∷ [];
}

print_summary-IsTotal_example :
    (t : Totals) × (print_summary local remote client_to_server
      ≡ lines_of remote client_to_server local.streams ++ sum_lines t)
    × IsTotal (lines_of remote client_to_server local.streams) t
print_summary-IsTotal_example = print_summary-IsTotal local remote client_to_server (omega arith)

at-print_latency_summary_example :
    (ls : List LatencyLine) × (print_latency_summary local remote ≡ some ls)
    × (at 0 ls ≡ both_sides local remote 0)
at-print_latency_summary_example = at-print_latency_summary local remote 0 refl
