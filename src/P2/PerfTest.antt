-- ===== src/P2/PerfTest.antt =====
-- crates/netperf-p2/src/common/perf_test.rs: the state of a test on one side.
pub mod SetState
use netperf.Prelude.{ℕ, ◌≡◌, String, Bool, true, false, not, Option, List, []}
use netperf.Core.Stats.{Direction, client_to_server, server_to_client, bidirectional}
use netperf.P2.Data.{Role, server, client, TestParameters}
use netperf.P2.Control.{State, test_start, ServerMessage}
use netperf.P2.Result.{Result, ok, with_context, next}
use netperf.P2.NetUtils.{server_send_message}
use netperf.P2.Runtime.{Runtime, Mpsc, Join}
use netperf.P2.Transport.{Transport}

-- How many streams a side with these roles sends and receives on, both `u16`.
abbrev pub client_counts : Direction → ℕ → ℕ × ℕ
client_counts client_to_server parallel = (parallel, 0)
client_counts server_to_client parallel = (0, parallel)
client_counts bidirectional parallel = (parallel, parallel)

-- A server swaps them.
abbrev pub stream_counts : Role → Direction → ℕ → ℕ × ℕ
stream_counts client d parallel = client_counts d parallel
stream_counts server d parallel = ((client_counts d parallel).1, (client_counts d parallel).0)

module _ (env : Runtime) where
  open env use {transport, server_json, mpsc}

  pub record StreamWorkerRef : Type 0 where
    pub channel : Mpsc.Channel mpsc
    pub join_handle : Join

  -- The mutex around `state` is held for one access at a time, so that the field is a plain value.
  pub record PerfTest : Type 0 where
    pub client_address : Option String
    pub cookie : String
    pub state : State
    pub control_socket : Transport.Socket transport
    pub role : Role
    pub params : TestParameters
    pub streams : List (ℕ × StreamWorkerRef)
    pub num_send_streams : ℕ
    pub num_receive_streams : ℕ

  unfoldable pub new :
      Option String → String → Transport.Socket transport → Role → TestParameters → PerfTest
  new client_address cookie control_socket role params = record {
    client_address = client_address;
    cookie = cookie;
    state = test_start;
    control_socket = control_socket;
    role = role;
    params = params;
    streams = [];
    num_send_streams = (stream_counts role params.direction params.parallel).0;
    num_receive_streams = (stream_counts role params.direction params.parallel).1;
  }

  -- A call on the control socket.
  abbrev pub on_socket :
      {A : Type 0}
      → (Transport.Socket transport → Result A × Transport.Socket transport)
      → PerfTest
      → Result A × PerfTest
  on_socket call p =
      ((call p.control_socket).0, record p { control_socket = (call p.control_socket).1 })

  -- A server tells its client first.
  sync_state : Role → State → PerfTest → Result (Unit {0}) × PerfTest
  sync_state server state p =
      let sent =
        on_socket (server_send_message transport server_json (ServerMessage.set_state state)) p in
      (with_context "Cannot send the state to the client" sent.0, sent.1)
  sync_state client state p = (ok tt, p)

  unfoldable pub set_state : State → PerfTest → Result (Unit {0}) × PerfTest
  unfolding sync_state
  set_state state p =
      next (sync_state p.role state p) (λ _ p'. (ok tt, record p' { state = state }))

  unfoldable pub get_state_clone : PerfTest → State
  get_state_clone p = p.state
