-- ===== src/Tests/Session.antt =====
-- A whole test of two streams on both sides, from the first message to the results.
use netperf.Prelude.{
  ℕ, zero, suc, ◌+◌, ◌*◌, ◌≡◌, refl, Bool, true, false, List, [], ◌∷◌, ◌++◌, none, some,
  if◌then◌else◌, arith,
}
use netperf.Prelude.Dicts.{get}
use netperf.Core.Stats.{client_to_server, StreamStats, TestResults}
use netperf.P2.Data.{ClientOpts, TestParameters, from_opts, default_block_size}
use netperf.P2.Result.{ok}
use netperf.P2.Runtime.{Runtime, start_load, joined}
use netperf.P2.PerfTest.{StreamWorkerRef}
use netperf.P2.PerfTest
use netperf.P2.NetUtils.{
  client_send_message, send_control_message, client_read_message, read_control_message,
}
use netperf.P2.NetUtils.RoundTrip.{frame}
use netperf.P2.Controller.{greet, new, create_and_register_stream_worker, broadcast_to_streams}
use netperf.P2.Controller.Run.{collect}
use netperf.P2.Session.Script.{Script, ServerStreams, ClientStreams}
use netperf.Tests.Network.{Wire, wires_Duplex}
use netperf.Tests.Json.{fields, stream_of}
use netperf.Tests.Texts.{runtime, server_json-IsJson, client_json-IsJson}

abbrev pub text : ℕ → List ℕ
text n = b'{' ∷ n ∷ []

-- What a worker comes to: the sender counts a little more than arrives.
abbrev pub moved : Bool → ℕ → StreamStats
moved is_sending id = if is_sending then stream_of 1 1000 (4096 + id) 2 else stream_of 0 1001 4000 2

abbrev pub numbers : (sender duration bytes first second : ℕ) → List ℕ
numbers sender duration bytes first second =
    b'{'
    ∷ 3
    ∷ first
    ∷ sender
    ∷ duration
    ∷ (bytes + sender * first)
    ∷ 2
    ∷ second
    ∷ sender
    ∷ duration
    ∷ (bytes + sender * second)
    ∷ 2
    ∷ []

abbrev pub of_server : List ℕ
of_server = numbers 0 1001 4000 1 0

abbrev pub of_client : List ℕ
of_client = numbers 1 1000 4096 1 0

abbrev pub from_server_side : List ℕ
from_server_side =
    frame (text 1) ++ (frame (text 7) ++ (frame (text 2) ++ (frame (text 6) ++ frame of_server)))

-- The control socket first, then the streams.
abbrev pub arriving : ℕ → List ℕ
arriving zero = from_server_side ++ 8 ∷ []
arriving (suc n) = frame (text 1)

abbrev pub wire : List ℕ → Wire
wire l = record { incoming = l; outgoing = [] }

abbrev pub net : Runtime
net = record runtime {
  spawn = λ worker. joined (ok (moved worker.is_sending worker.id));
  connect = λ address n. ok (wire (arriving n));
}

abbrev pub opts : ClientOpts
opts = record {
  client = some "127.0.0.1";
  length = none;
  socket_buffers = none;
  time = 10;
  parallel = 2;
  bidir = false;
  reverse = false;
  latency = false;
}

abbrev pub params : TestParameters
params = record {
  direction = client_to_server;
  omit_seconds = 0;
  time_seconds = 10;
  parallel = 2;
  block_size = default_block_size;
  client_version = "0.1";
  socket_buffers = none;
  measure_latency = false;
}

abbrev pub server_results : TestResults
server_results = record { streams = (1, moved false 1) ∷ (0, moved false 0) ∷ [] }

abbrev pub client_results : TestResults
client_results = record { streams = (1, moved true 1) ∷ (0, moved true 0) ∷ [] }

unfoldable pub script :
    Script net wires_Duplex "secret"
      (from_opts "0.1" opts default_block_size)
      server_results
      client_results
unfolding from_opts
script = record {
  hello = text 1;
  welcome = text 1;
  parameters = fields params;
  called = text 7;
  started = text 2;
  told = text 6;
  by_server = of_server;
  by_client = of_client;
  negotiation = record {
    is_server_json = server_json-IsJson;
    is_client_json = client_json-IsJson;
    hello_text = refl;
    welcome_text = refl;
    parameters_text = refl;
    hello_fits = omega arith;
    welcome_fits = omega arith;
    parameters_fits = omega arith;
  };
  called_text = refl;
  started_text = refl;
  told_text = refl;
  server_text = refl;
  client_text = refl;
  called_fits = omega arith;
  started_fits = omega arith;
  told_fits = omega arith;
  server_fits = omega arith;
  client_fits = omega arith;
}

abbrev pub ref : Bool → ℕ → StreamWorkerRef net
ref is_sending id = record {
  channel = (5, start_load ∷ []);
  join_handle = joined (ok (moved is_sending id));
}

abbrev pub server_order : List (ℕ × StreamWorkerRef net)
server_order = (1, ref false 1) ∷ (0, ref false 0) ∷ []

pub swapped : (k : ℕ) → get k server_order ≡ get k ((0, ref false 0) ∷ (1, ref false 1) ∷ [])
swapped k = ground arith

abbrev pub from_client_side : List ℕ
from_client_side = frame (text 1) ++ (frame (fields params) ++ frame of_client)

pub server_streams :
    ServerStreams net wires_Duplex "secret"
      (from_opts "0.1" opts default_block_size)
      (wire (from_client_side ++ 9 ∷ []))
      (wire [] ∷ wire [] ∷ [])
      server_order
      server_results
unfolding from_opts collect broadcast_to_streams create_and_register_stream_worker new PerfTest.new
server_streams = record {
  all_there = refl;
  some_notice = λ e. cc;
  each_once = (refl, (refl, tt));
  entries = swapped;
  ended = (tt, (tt, tt));
  collected = refl;
}

abbrev pub greeted_socket : Wire
greeted_socket = record { incoming = []; outgoing = frame (text 1) }

handshake : greet net "secret" (wire (frame (text 1))) ≡ ok greeted_socket
unfolding greet client_send_message send_control_message client_read_message read_control_message
handshake = refl

pub client_streams :
    ClientStreams net wires_Duplex "secret" "127.0.0.1:7559"
      (from_opts "0.1" opts default_block_size)
      (wire (from_server_side ++ 8 ∷ []))
      (greeted_socket ∷ greeted_socket ∷ [])
      ((1, ref true 1) ∷ [])
      ((0, ref true 0) ∷ [])
      client_results
unfolding from_opts collect broadcast_to_streams create_and_register_stream_worker new PerfTest.new
client_streams = record {
  all_there = refl;
  dialed =
      ((wire (frame (text 1)), refl, handshake), ((wire (frame (text 1)), refl, handshake), tt));
  taken = (refl, refl);
  ended = (tt, tt);
  collected = refl;
}
