-- ===== src/Tests/Controller.antt =====
-- A test of two streams on either side, and the theorems about the controller there.
use netperf.Prelude.{
  ℕ, ◌+◌, ◌*◌, ◌^◌, ◌≡◌, ◌≢◌, refl, not, true, false, List, [], ◌∷◌, ◌++◌, none, some, arith, inl,
  inr,
}
use netperf.Prelude.Dicts.{get}
use netperf.Core.Stats.{Direction, client_to_server, bidirectional}
use netperf.P2.Data.{Role, server, client, TestParameters}
use netperf.P2.Control.{State, running}
use netperf.P2.Result.{ok}
use netperf.P2.Runtime.{joined}
use netperf.P2.PerfTest.{PerfTest, StreamWorkerRef}
use netperf.P2.NetUtils.RoundTrip.{frame}
use netperf.P2.Controller.{stream_terminated, TestController, total_needed_streams, next_is_sending}
use netperf.P2.Controller.Registry.{next_is_sending-complement, total_needed_streams-wraps}
use netperf.P2.Controller.Run.{collect_test_result}
use netperf.P2.Controller.Loop.{Choice, internal, run}
use netperf.P2.Controller.Waiting.{run-waits}
use netperf.P2.Controller.Results.{get-collect_test_result}
use netperf.Tests.Network.{Wire}
use netperf.Tests.Texts.{some_stats, runtime}

abbrev pub socket : List ℕ → Wire
socket l = record { incoming = l; outgoing = [] }

abbrev pub params : Direction → ℕ → TestParameters
params direction parallel = record {
  direction = direction;
  omit_seconds = 0;
  time_seconds = 10;
  parallel = parallel;
  block_size = 1024;
  client_version = "0.1";
  socket_buffers = none;
  measure_latency = false;
}

abbrev pub worker_ref : StreamWorkerRef runtime
worker_ref = record { channel = (5, []); join_handle = joined (ok some_stats) }

abbrev pub side :
    Role → Direction → ℕ → ℕ → ℕ → List (ℕ × StreamWorkerRef runtime) → List ℕ → PerfTest runtime
side role direction parallel send receive streams incoming = record {
  client_address = some "127.0.0.1:7559";
  cookie = "secret";
  state = running;
  control_socket = socket incoming;
  role = role;
  params = params direction parallel;
  streams = streams;
  num_send_streams = send;
  num_receive_streams = receive;
}

abbrev pub controller : PerfTest runtime → TestController runtime
controller p = record { test = p; stream_results = []; report = none }

abbrev unsendable : State
unsendable = State.test_start

abbrev both_ways : Role → PerfTest runtime
both_ways role = side role bidirectional 2 2 2 ((0, worker_ref) ∷ []) []

next_is_sending-complement_example :
    (next_is_sending runtime (both_ways server) ≡ not (next_is_sending runtime (both_ways client)))
    × (total_needed_streams runtime (both_ways server)
        ≡ total_needed_streams runtime (both_ways client))
next_is_sending-complement_example =
    next_is_sending-complement runtime (both_ways client) (both_ways server)
      (record {
        p_role = refl;
        q_role = refl;
        same_direction = refl;
        same_parallel = refl;
        p_counts = record { send = refl; receive = refl };
        q_counts = record { send = refl; receive = refl };
        same_length = refl;
      })
      (omega arith) (omega arith)

abbrev too_many : PerfTest runtime
too_many = side client bidirectional 40_000 40_000 40_000 [] []

total_needed_streams-wraps_example :
    (total_needed_streams runtime too_many + 2 ^ 16 ≡ 2 * 40_000)
    × (next_is_sending runtime too_many ≡ true)
total_needed_streams-wraps_example =
    total_needed_streams-wraps runtime too_many (record { send = refl; receive = refl }) refl refl
      (omega arith) (omega arith) (omega arith)

abbrev pub loaded : PerfTest runtime
loaded = side server client_to_server 2 0 2 ((0, worker_ref) ∷ (1, worker_ref) ∷ []) []

abbrev one_notice : List (Choice Wire)
one_notice = internal (some (stream_terminated 0)) 0 ∷ []

run-waits_example : (run runtime 9 one_notice running (controller loaded)).0 ≢ ok tt
run-waits_example =
    run-waits runtime 1 9 one_notice running (controller loaded)
      (record { role = refl; registered = inr (inl refl); not_done = refl })
      ((λ e. omega arith), tt)

get-collect_test_result_example :
    get 1 (collect_test_result runtime (controller loaded)).0.streams ≡ some some_stats
get-collect_test_result_example =
    get-collect_test_result runtime 1 (controller loaded) (refl, (refl, tt))

abbrev pub three : List ℕ
three = b'{' ∷ 3 ∷ []

abbrev finishing : Role → TestController runtime
finishing role = controller (side role client_to_server 2 0 2 [] (frame three ++ 9 ∷ []))

abbrev pub six : List ℕ
six = b'{' ∷ 6 ∷ []
