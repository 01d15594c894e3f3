-- ===== src/P2/Controller.antt =====
-- crates/netperf-p2/src/controller.rs: the controller of a test, on either side.
pub mod Registry
pub mod Run
pub mod Loop
pub mod Waiting
pub mod Results
pub mod Cancel
pub mod Completes
pub mod Finishes
pub mod Dialing
pub mod Refines
pub mod Closing
pub mod Fuel
pub mod Gathering
pub mod Joining
pub mod Whole
pub mod WholeClient
pub mod Workers
pub mod Report
pub mod Protocol
pub mod Validity
use netperf.Prelude.{
  ℕ, zero, suc, ◌+◌, ◌==◌, String, Bool, true, false, not, ◌&&◌, Option, none, some, List, [], ◌∷◌,
  length, map, if◌then◌else◌, ltb, u16,
}
use netperf.Prelude.Dicts.{get, insert, remove}
use netperf.Core.Stats.{Direction, bidirectional, StreamStats, TestResults}
use netperf.P2.Data.{Role, server, client, internal_prot_buffer}
use netperf.P2.Control.{
  State, test_start, create_streams, running, exchange_results, ClientMessage, ServerMessage,
}
use netperf.P2.Result.{Result, ok, err, panic, diverged, message, with_context, next, ◌>>=◌, ◌>>◌}
use netperf.P2.Transport.{Transport}
use netperf.P2.NetUtils.{
  read_loop, client_send_message, server_send_message, client_read_message, server_read_message,
}
use netperf.P2.Runtime.{
  Runtime, Mpsc, Join, joined, join_error, late, StreamWorker, WorkerMessage, start_load, terminate,
}
use netperf.P2.PerfTest.{PerfTest, StreamWorkerRef, set_state, on_socket}

abbrev pub is_server : Role → Bool
is_server server = true
is_server client = false

abbrev pub is_bidirectional : Direction → Bool
is_bidirectional bidirectional = true
is_bidirectional _ = false

abbrev pub is_running : State → Bool
is_running running = true
is_running _ = false

abbrev pub is_empty {ℓ} : {A : Type ℓ} → List A → Bool
is_empty [] = true
is_empty (_ ∷ _) = false

pub data ControllerMessage (Socket : Type 0) : Type 0 where
  create_stream : Socket → ControllerMessage Socket
  stream_terminated : ℕ → ControllerMessage Socket

-- Whether the loop starts again at once, waits for a message, or ends.
pub data Flow : Type 0 where
  again wait stop : Flow

module _ (env : Runtime) where
  open env use {transport, server_json, client_json, mpsc, connect, spawn}

  abbrev pub Socket : Type 0
  Socket = Transport.Socket transport

  -- `report` is what `print_results` was given. The channel's receiver is the schedule of `run`.
  pub record TestController : Type 0 where
    pub test : PerfTest env
    pub stream_results : List (ℕ × StreamStats)
    pub report : Option (TestResults × TestResults)

  unfoldable pub new : PerfTest env → TestController
  new test = record { test = test; stream_results = []; report = none }

  abbrev pub on_test :
      {A : Type 0}
      → (PerfTest env → Result A × PerfTest env)
      → TestController
      → Result A × TestController
  on_test call c = ((call c.test).0, record c { test = (call c.test).1 })

  abbrev pub on_control :
      {A : Type 0} → (Socket → Result A × Socket) → TestController → Result A × TestController
  on_control call = on_test (on_socket env call)

  -- `(num_send_streams + num_receive_streams) as usize`: the sum wraps at 16 bits.
  abbrev pub total_needed_streams : PerfTest env → ℕ
  total_needed_streams p = u16 (p.num_send_streams + p.num_receive_streams)

  -- The role of the next stream: the first `num_send_streams` send, and a server of a
  -- bidirectional test flips that.
  abbrev pub next_is_sending : PerfTest env → Bool
  next_is_sending p =
      let sends = ltb (length p.streams) p.num_send_streams in
      if is_server p.role && is_bidirectional p.params.direction then not sends else sends

  abbrev pub next_worker : Socket → PerfTest env → StreamWorker Socket
  next_worker stream p = record {
    id = length p.streams;
    stream = stream;
    params = p.params;
    is_sending = next_is_sending p;
  }

  abbrev pub next_ref : Socket → PerfTest env → StreamWorkerRef env
  next_ref stream p = record {
    channel = Mpsc.channel mpsc internal_prot_buffer;
    join_handle = spawn (next_worker stream p);
  }

  unfoldable pub create_and_register_stream_worker : Socket → TestController → TestController
  create_and_register_stream_worker stream c =
      let p = c.test in
      record c {
        test = record p { streams = insert (length p.streams) (next_ref stream p) p.streams };
      }

  unfoldable pub accept_stream : Socket → TestController → Result (Unit {0}) × TestController
  unfolding create_and_register_stream_worker
  accept_stream stream c =
      let c' = create_and_register_stream_worker stream c in
      if is_server c.test.role
      then (if length c'.test.streams == total_needed_streams c.test
          then on_test (set_state env running) c'
          else (ok tt, c'))
      else (panic, c)

  -- Connects and authenticates; any message of the server but an error will do.
  greeted : {A : Type 0} → Result A × Socket → Result Socket
  greeted (ok _, s) = ok s
  greeted (err e, _) = err e
  greeted (panic, _) = panic
  greeted (diverged, _) = diverged

  unfoldable pub greet : String → Socket → Result Socket
  unfolding greeted
  greet cookie s = greeted (
      next (client_send_message transport client_json (ClientMessage.hello cookie) s)
        (λ _. client_read_message transport server_json))

  pub connect_data_stream : TestController → Result Socket
  unfolding greet
  connect_data_stream c = elim c.test.client_address [
    | none ↦ panic
    | some address ↦ elim (connect address (suc (length c.test.streams))) [
      | ok s ↦ greet c.test.cookie s
      | err e ↦ err e
      | panic ↦ panic
      | diverged ↦ diverged
    ]
  ]

  -- The `while` loop; `fuel` bounds its rounds. A round registers one stream more, unless its
  -- number is taken by a stream that is still there: then it replaces that one, and so do all rounds
  -- behind it as long as the connections are made, which is `diverged` here.
  pub create_loop : ℕ → ℕ → TestController → Result (Unit {0}) × TestController
  unfolding connect_data_stream create_and_register_stream_worker
  create_loop zero total c = if ltb (length c.test.streams) total then (diverged, c) else (ok tt, c)
  create_loop (suc fuel) total c =
      let round =
        next (connect_data_stream c, c)
          (λ stream c'. create_loop fuel total (create_and_register_stream_worker stream c')) in
      if ltb (length c.test.streams) total then round else (ok tt, c)

  unfoldable pub create_streams_on_client : TestController → Result (Unit {0}) × TestController
  unfolding create_loop
  create_streams_on_client c =
      let total = total_needed_streams c.test in
      if is_server c.test.role then (panic, c) else create_loop total total c

  tell : WorkerMessage → ℕ × StreamWorkerRef env → ℕ × StreamWorkerRef env
  tell m (id, worker_ref) =
      (id, record worker_ref { channel = (Mpsc.try_send mpsc m worker_ref.channel).1 })

  -- A channel that is full or closed is logged and passed over.
  unfoldable pub broadcast_to_streams : WorkerMessage → TestController → TestController
  unfolding tell
  broadcast_to_streams m c = record c {
    test = record c.test { streams = map (tell m) c.test.streams };
  }
