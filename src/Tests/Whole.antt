-- ===== src/Tests/Whole.antt =====
-- A test of two streams on either side, from its first round to the results.
use netperf.Prelude.{ℕ, ◌≡◌, refl, List, [], ◌∷◌, ◌++◌, none, some, arith}
use netperf.Prelude.Dicts.{get}
use netperf.Core.Stats.{client_to_server}
use netperf.P2.Data.{server, client}
use netperf.P2.Control.{test_start}
use netperf.P2.Result.{ok, err, json}
use netperf.P2.Runtime.{Runtime, start_load, joined}
use netperf.P2.PerfTest.{StreamWorkerRef}
use netperf.P2.NetUtils.{
  client_send_message, send_control_message, client_read_message, read_control_message,
}
use netperf.P2.NetUtils.RoundTrip.{frame}
use netperf.P2.Controller.{
  TestController, greet, create_and_register_stream_worker, broadcast_to_streams,
}
use netperf.P2.Controller.Run.{collect}
use netperf.P2.Controller.Loop.{from_server, run_controller}
use netperf.P2.Controller.Completes.{Completes, notices}
use netperf.P2.Controller.Gathering.{connections}
use netperf.P2.Controller.Whole.{run_controller-Completes}
use netperf.P2.Controller.WholeClient.{run_controller_client-Completes}
use netperf.Tests.Controller.{socket, params, three, six}
use netperf.Tests.Network.{Wire, wires_Duplex}
use netperf.Tests.Texts.{no_results, runtime, server_json-IsJson, client_json-IsJson}

abbrev one : List ℕ
one = b'{' ∷ 1 ∷ []

-- Workers that all end with an error, and connections that are all welcome.
abbrev failing : Runtime
failing = record runtime {
  spawn = λ worker. joined (err json);
  connect = λ address n. ok (record { incoming = frame one; outgoing = [] });
}

abbrev fresh : TestController failing
fresh = record {
  test = record {
    client_address = none;
    cookie = "secret";
    state = test_start;
    control_socket = socket (frame three ++ 9 ∷ []);
    role = server;
    params = params client_to_server 2;
    streams = [];
    num_send_streams = 0;
    num_receive_streams = 2;
  };
  stream_results = [];
  report = none;
}

abbrev loaded_ref : StreamWorkerRef failing
loaded_ref = record { channel = (5, start_load ∷ []); join_handle = joined (err json) }

abbrev order : List (ℕ × StreamWorkerRef failing)
order = (1, loaded_ref) ∷ (0, loaded_ref) ∷ []

same_streams : (k : ℕ) → get k order ≡ get k ((0, loaded_ref) ∷ (1, loaded_ref) ∷ [])
same_streams k = ground arith

abbrev seven : List ℕ
seven = b'{' ∷ 7 ∷ []

abbrev two : List ℕ
two = b'{' ∷ 2 ∷ []

run_controller-Completes_example :
    Completes failing wires_Duplex
      (((frame seven) ++ frame two) ++ frame six ++ frame three)
      (9 ∷ [])
      no_results
      no_results
      (run_controller failing 6
        (connections failing (socket [] ∷ socket [] ∷ []) ++ notices failing order)
        fresh)
unfolding collect broadcast_to_streams create_and_register_stream_worker
run_controller-Completes_example =
    run_controller-Completes failing wires_Duplex server_json-IsJson client_json-IsJson seven two
      six three three [] (9 ∷ []) no_results no_results "secret" refl refl refl refl refl
      (omega arith) (omega arith) (omega arith) (omega arith) (omega arith) 6 (socket [])
      (socket [] ∷ []) order fresh (omega arith) refl refl refl refl refl (λ e. cc)
      (refl, (refl, tt)) same_streams (tt, (tt, tt)) refl
      (record { reading = tt; writing = tt; sent_so_far = refl; to_come = refl })

abbrev fresh_client : TestController failing
fresh_client = record {
  test = record {
    client_address = some "127.0.0.1:7559";
    cookie = "secret";
    state = test_start;
    control_socket = socket (frame seven ++ (frame two ++ (frame six ++ (frame three ++ 9 ∷ []))));
    role = client;
    params = params client_to_server 2;
    streams = [];
    num_send_streams = 2;
    num_receive_streams = 0;
  };
  stream_results = [];
  report = none;
}

-- A connection behind its handshake.
abbrev greeted_socket : Wire
greeted_socket = record { incoming = []; outgoing = frame one }

handshake :
    greet failing "secret" (record { incoming = frame one; outgoing = [] }) ≡ ok greeted_socket
unfolding greet client_send_message send_control_message client_read_message read_control_message
handshake = refl

run_controller_client-Completes_example :
    Completes failing wires_Duplex (frame three) (9 ∷ []) no_results no_results (
      run_controller failing 5
        (from_server ∷ from_server ∷ (notices failing ((1, loaded_ref) ∷ []) ++ from_server ∷ []))
        fresh_client)
unfolding collect broadcast_to_streams create_and_register_stream_worker
run_controller_client-Completes_example =
    run_controller_client-Completes failing wires_Duplex server_json-IsJson client_json-IsJson seven
      two six three three [] (9 ∷ []) no_results no_results "secret" refl refl refl refl refl
      (omega arith) (omega arith) (omega arith) (omega arith) (omega arith) 5 "secret"
      "127.0.0.1:7559" (greeted_socket ∷ greeted_socket ∷ []) ((1, loaded_ref) ∷ [])
      ((0, loaded_ref) ∷ []) fresh_client (omega arith) refl refl refl refl refl refl
      (
        (record { incoming = frame one; outgoing = [] }, refl, handshake),
        ((record { incoming = frame one; outgoing = [] }, refl, handshake), tt),
      )
      (refl, refl) (tt, tt) refl
      (record { reading = tt; writing = tt; sent_so_far = refl; to_come = refl })
