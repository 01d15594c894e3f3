-- ===== src/Tests/Server.antt =====
-- Connections to a server with a test in flight, and the negotiation of a test.
use netperf.Prelude.{
  ℕ, ◌≤◌, ◌≡◌, refl, true, false, ltb, if◌then◌else◌, List, [], ◌∷◌, ◌++◌, length, none, some,
  arith,
}
use netperf.Core.Stats.{client_to_server}
use netperf.P2.Data.{TestParameters}
use netperf.P2.Control.{State, create_streams}
use netperf.P2.Result.{err, message}
use netperf.P2.Runtime.{Mpsc, IsMpsc}
use netperf.P2.NetUtils.RoundTrip.{frame}
use netperf.P2.NetUtils.Both.{Holds}
use netperf.P2.Controller.{ControllerMessage}
use netperf.P2.Client.Handshake.{Agrees, create_test-negotiate}
use netperf.P2.Server.{accept, test_ended, accept_failed, Server, idle, run_server}
use netperf.P2.Server.Slots.{length-run_server}
use netperf.P2.Server.Replies.{
  TurnsAway, Joins, run_server-impostor, run_server-Joins, run_server-closed,
}
use netperf.Tests.Network.{Wire, wires, wires_Reads, wires_Duplex}
use netperf.Tests.Json.{fields}
use netperf.Tests.Texts.{runtime, server_json-IsJson, client_json-IsJson}

-- A queue of streams is its capacity and what waits in it.
abbrev pub streams : Mpsc (ControllerMessage Wire)
streams = record {
  Channel = ℕ × List (ControllerMessage Wire);
  channel = λ n. (n, []);
  try_send = λ m c. if ltb (length c.1) c.0 then (true, (c.0, c.1 ++ m ∷ [])) else (false, c);
}

abbrev pub streams-IsMpsc : IsMpsc (ControllerMessage Wire) streams
streams-IsMpsc = record {
  waiting = λ c. c.1;
  capacity = λ c. c.0;
  waiting-channel = λ n. refl;
  capacity-channel = λ n. refl;
  taken = λ m c h. ground arith;
  full = λ m c h. ground arith;
}

abbrev wire : List ℕ → Wire
wire l = record { incoming = l; outgoing = [] }

abbrev serving : State → Server runtime streams
serving state = record {
  in_flight = some state;
  controller_channel = some (5, []);
  tests = [];
  refused = [];
}

abbrev hello : ℕ → List ℕ
hello n = b'{' ∷ n ∷ []

abbrev denied : List ℕ
denied = b'{' ∷ 5 ∷ []

abbrev wire_Holds : (l : List ℕ) → Holds wires wires_Duplex [] l (wire l)
wire_Holds l = record { reading = tt; writing = tt; sent_so_far = refl; to_come = refl }

length-run_server_example :
    length
      (run_server runtime streams
        (accept (wire (frame (hello 1))) false ∷ test_ended ∷ accept (wire []) true ∷ [])
        (idle runtime streams)).1.tests
    ≤ 2
length-run_server_example =
    length-run_server runtime streams
      (accept (wire (frame (hello 1))) false ∷ test_ended ∷ accept (wire []) true ∷ [])

run_server-impostor_example :
    TurnsAway runtime streams wires_Duplex
      (frame denied)
      []
      false
      (wire (frame (hello 2) ++ []))
      (accept_failed ∷ [])
      (serving (create_streams "secret"))
run_server-impostor_example =
    run_server-impostor runtime streams wires_Duplex (hello 2) denied [] [] "secret" "guess" false
      (wire (frame (hello 2) ++ [])) (accept_failed ∷ []) (serving (create_streams "secret")) refl
      (λ e. cc) client_json-IsJson refl refl (omega arith) (omega arith)
      (wire_Holds (frame (hello 2) ++ []))

run_server-Joins_example :
    Joins runtime streams wires_Duplex streams-IsMpsc
      (frame (hello 1))
      []
      false
      (wire (frame (hello 1) ++ []))
      (accept_failed ∷ [])
      (5, [])
      (serving (create_streams "secret"))
run_server-Joins_example =
    run_server-Joins runtime streams wires_Duplex streams-IsMpsc (hello 1) (hello 1) [] [] "secret"
      false (wire (frame (hello 1) ++ [])) (accept_failed ∷ []) (5, [])
      (serving (create_streams "secret")) refl refl (omega arith) client_json-IsJson refl refl
      (omega arith) (omega arith) (wire_Holds (frame (hello 1) ++ []))

run_server-closed_example :
    run_server runtime streams
      (accept (wire (7 ∷ [])) false ∷ test_ended ∷ [])
      (serving (create_streams "secret"))
    ≡ (err (message "Failed to finish initial negotiation"), serving (create_streams "secret"))
run_server-closed_example =
    run_server-closed runtime streams wires_Reads "secret" false (wire (7 ∷ [])) (test_ended ∷ [])
      (serving (create_streams "secret")) refl tt (omega arith)

abbrev wanted : TestParameters
wanted = record {
  direction = client_to_server;
  omit_seconds = 0;
  time_seconds = 10;
  parallel = 2;
  block_size = 2_097_152;
  client_version = "0.1";
  socket_buffers = none;
  measure_latency = true;
}

abbrev welcomed : List ℕ
welcomed = frame (hello 1) ++ 8 ∷ []

abbrev negotiated : List ℕ
negotiated = frame (hello 1) ++ (frame (fields wanted) ++ 9 ∷ [])

create_test-negotiate_example :
    Agrees runtime wires_Duplex "secret" "127.0.0.1:7559" wanted
      (hello 1)
      (hello 1)
      (fields wanted)
      []
      []
      (8 ∷ [])
      (9 ∷ [])
      (wire welcomed)
      (wire negotiated)
create_test-negotiate_example =
    create_test-negotiate runtime wires_Duplex "secret" "127.0.0.1:7559" wanted (hello 1) (hello 1)
      (fields wanted) [] [] (8 ∷ []) (9 ∷ []) (wire welcomed) (wire negotiated)
      (record {
        is_server_json = server_json-IsJson;
        is_client_json = client_json-IsJson;
        hello_text = refl;
        welcome_text = refl;
        parameters_text = refl;
        hello_fits = omega arith;
        welcome_fits = omega arith;
        parameters_fits = omega arith;
      })
      (wire_Holds welcomed) (wire_Holds negotiated)
