-- ===== src/P2/Controller/Report.antt =====
-- crates/netperf-p2/src/controller.rs: what a controller prints at the end.
use netperf.Prelude.{Option, none, List, if◌then◌else◌}
use netperf.Core.Stats.{TestResults}
use netperf.Core.Ui.{Line, print_summary}
use netperf.Core.LatencyUi.{LatencyLine, print_latency_summary}
use netperf.P2.Data.{TestParameters}

-- The summary, and the latency summary if it is printed. `params` are those of the test.
unfoldable pub print_results :
    TestParameters → (local remote : TestResults) → List Line × Option (List LatencyLine)
print_results params local remote = (
  print_summary local remote params.direction,
  if params.measure_latency then print_latency_summary local remote else none,
)
