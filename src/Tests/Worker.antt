-- ===== src/Tests/Worker.antt =====
-- A worker that receives two portions, and the theorems about workers there.
use Prim.Native.Nat.{min}
use netperf.Prelude.{
  ℕ, ◌^◌, ◌-◌, ◌*◌, ◌/◌, ◌≤◌, ◌<◌, refl, true, false, List, [], ◌∷◌, none, some, arith,
}
use netperf.Core.Sort.{count_le, count_lt}
use netperf.Core.Stats.{client_to_server}
use netperf.P2.Data.{TestParameters}
use netperf.P2.Result.{ok}
use netperf.P2.Runtime.{StreamWorker, start_load}
use netperf.P2.StreamWorker.{Event, deadline, tick, io, deltas, calibrate_clock}
use netperf.P2.StreamWorker.Clock.{calibrate_clock-median}
use netperf.P2.StreamWorker.Run.{Inputs, drain, run_worker}
use netperf.P2.StreamWorker.Run.Outcome.{Reports, run_worker-Reports}
use netperf.Tests.Network.{Wire}

abbrev measured : TestParameters
measured = record {
  direction = client_to_server;
  omit_seconds = 0;
  time_seconds = 1;
  parallel = 1;
  block_size = 1024;
  client_version = "0.1";
  socket_buffers = none;
  measure_latency = true;
}

abbrev receiver : StreamWorker Wire
receiver = record {
  id = 0;
  stream = record { incoming = []; outgoing = [] };
  params = measured;
  is_sending = false;
}

abbrev before_end : List Event
before_end = io (ok 700) 2_000_000 ∷ tick 3_000_000 ∷ io (ok 324) 12_000_000 ∷ []

abbrev inputs : Inputs
inputs = record {
  random = ok tt;
  signal = some start_load;
  start_time = 1_000_000;
  clock_first = 0;
  clock_reads = 20 ∷ 50 ∷ 75 ∷ [];
  events = io (ok 700) 2_000_000 ∷ tick 3_000_000 ∷ io (ok 324) 12_000_000 ∷ deadline ∷ [];
  end_time = 1_001_000_000;
  drain = ok 5 ∷ ok 0 ∷ [];
}

-- Bits per second, rounded down, or the largest number of 64 bits.
abbrev goodput : ℕ → ℕ → ℕ
goodput bytes elapsed = min (bytes * 8_000_000_000 / elapsed) (2 ^ 64 - 1)

run_worker-Reports_example : Reports false true 1000 before_end (run_worker goodput receiver inputs)
unfolding drain
run_worker-Reports_example =
    run_worker-Reports goodput receiver inputs before_end deadline [] refl refl refl
      (omega arith, (omega arith, (omega arith, tt))) tt (omega arith) (omega arith) refl
      (omega arith) (omega arith) (λ _. omega arith)

calibrate_clock-median_example :
    let m = calibrate_clock 0 (20 ∷ 50 ∷ 75 ∷ []) in
    (1 < count_le m (deltas 0 (20 ∷ 50 ∷ 75 ∷ [])))
    × (count_lt m (deltas 0 (20 ∷ 50 ∷ 75 ∷ [])) ≤ 1)
calibrate_clock-median_example = calibrate_clock-median 0 (20 ∷ 50 ∷ 75 ∷ []) (omega arith)
