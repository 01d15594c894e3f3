-- ===== src/P3/Session.antt =====
-- crates/netperf-p3/src/lib.rs: a whole test, on either side.
pub mod Negotiation
pub mod Forward
use netperf.Prelude.{
  ℕ, String, zero, suc, ◌+◌, Bool, true, false, Option, none, some, List, [], ◌∷◌, ◌++◌,
  if◌then◌else◌, usize, u64,
}
use netperf.Prelude.Bytes.{le_bytes_64, from_le_bytes_64}
use netperf.Core.Stats.{Direction, StreamStats, TestResults}
use netperf.P3.Roles.{direction_of, roles}
use netperf.P3.Frames.{Chunk, Received, value, panics, waits, framed, recv_msg}
use netperf.P3.Transfer.{Sends, Receives, Greeting, Sent, client_conn, server_conn, ◌>>=◌}

pub record Params : Type 0 where
  pub dir : ℕ
  pub secs : ℕ
  pub block : ℕ
  pub parallel : ℕ
  pub cookie : ℕ
  pub measure_latency : Bool

-- The command line: `client` is the host.
pub record Opts : Type 0 where
  pub server : Bool
  pub client : Option String
  pub port : ℕ
  pub time : ℕ
  pub length : ℕ
  pub parallel : ℕ
  pub reverse : Bool
  pub bidir : Bool
  pub latency : Bool

-- A data connection: what its writes and its reads meet; `greeting` is a client's.
pub record Connection : Type 0 where
  pub greeting : Greeting
  pub sends : Sends
  pub receives : Receives

-- What the streams of one side have in common.
pub record Plan : Type 0 where
  pub cookie : List ℕ
  pub sending : Bool
  pub receiving : Bool
  pub block : ℕ
  pub secs : ℕ
  pub measure : Bool

abbrev pub client_side : Plan → Connection → Option Sent
client_side p c =
    client_conn p.cookie p.sending p.receiving p.block p.secs p.measure c.greeting c.sends
      c.receives

-- One side of one connection.
run_stream : (is_server : Bool) → Plan → Connection → Option (List StreamStats)
run_stream true p c =
    server_conn p.cookie p.receiving p.sending p.block p.secs p.measure c.sends c.receives
run_stream false p c = do done ← client_side p c; some done.stats

-- `join_all`, and the results in the order of the connections.
unfoldable pub run_streams : (is_server : Bool) → Plan → List Connection → Option (List StreamStats)
unfolding run_stream
run_streams is_server p [] = some []
run_streams is_server p (c ∷ conns) = do
  stats ← run_stream is_server p c
  others ← run_streams is_server p conns
  some (stats ++ others)

abbrev pub enumerate : ℕ → List StreamStats → List (ℕ × StreamStats)
enumerate i [] = []
enumerate i (s ∷ streams) = (i, s) ∷ enumerate (suc i) streams

unfoldable pub to_results : List StreamStats → TestResults
to_results streams = record { streams = enumerate 0 streams }

-- The next `parallel` connections; `none` if the listener ends before, or one cannot be made.
pub take_connections : ℕ → List Connection → Option (List Connection)
take_connections zero conns = some []
take_connections (suc n) [] = none
take_connections (suc n) (c ∷ conns) = do others ← take_connections n conns; some (c ∷ others)

-- How `run` ends: well, with an error, in a panic, or not at all.
pub data Outcome (A : Type 0) : Type 0 where
  finished : A → Outcome A
  failed : Outcome A
  panicked : Outcome A
  pending : Outcome A

-- serde_json, as far as the two messages want it.
pub record Codec : Type 0 where
  pub params_to_vec : Params → Option (List ℕ)
  pub params_from_slice : List ℕ → Option Params
  pub results_to_vec : TestResults → Option (List ℕ)
  pub results_from_slice : List ℕ → Option TestResults

-- The server's side of the parameters that it was sent.
unfoldable pub server_plan : Params → Plan
unfolding roles
server_plan p = record {
  cookie = le_bytes_64 p.cookie;
  sending = (roles p.dir true).0;
  receiving = (roles p.dir true).1;
  block = usize p.block;
  secs = p.secs;
  measure = p.measure_latency;
}

unfoldable pub dir_of : Opts → ℕ
dir_of o = if o.bidir then 2 else if o.reverse then 1 else 0

unfoldable pub client_params : Opts → (cb : List ℕ) → Params
unfolding dir_of
client_params o cb = record {
  dir = dir_of o;
  secs = o.time;
  block = o.length;
  parallel = o.parallel;
  cookie = from_le_bytes_64 cb;
  measure_latency = o.latency;
}

unfoldable pub client_plan : Opts → (cb : List ℕ) → Plan
unfolding roles dir_of
client_plan o cb = record {
  cookie = cb;
  sending = (roles (dir_of o) false).0;
  receiving = (roles (dir_of o) false).1;
  block = o.length;
  secs = o.time;
  measure = o.latency;
}

-- What a client has at its end: what it sent on the control connection, and what it prints.
pub record Report : Type 0 where
  pub sent : List ℕ
  pub local : TestResults
  pub remote : TestResults
  pub direction : Direction
  pub latency : Bool

module _ (json : Codec) where
  answer : Option (List StreamStats) → Outcome (List ℕ)
  unfolding to_results
  answer (some local) = finished (framed (json.results_to_vec (to_results local)))
  answer none = pending

  transfer : Params → Option (List Connection) → Outcome (List ℕ)
  unfolding run_streams server_plan answer
  transfer p (some datas) = answer (run_streams true (server_plan p) datas)
  transfer p none = failed

  serve : Received Params → List Connection → Outcome (List ℕ)
  unfolding transfer take_connections
  serve (value (some p)) conns = transfer p (take_connections p.parallel conns)
  serve (value none) conns = failed
  serve panics conns = panicked
  serve waits conns = pending

  -- A server behind its listener: what it writes on the control connection. `conns` are the
  -- connections behind the first.
  unfoldable pub run_server : Option (List Chunk) → List Connection → Outcome (List ℕ)
  unfolding serve
  run_server none conns = failed
  run_server (some ctrl) conns = serve (recv_msg json.params_from_slice ctrl) conns

  -- `unwrap_or_default`
  remote_of : Received TestResults → Outcome TestResults
  remote_of (value (some r)) = finished r
  remote_of (value none) = finished (record { streams = [] })
  remote_of panics = panicked
  remote_of waits = pending

  report : Opts → List ℕ → List StreamStats → Outcome TestResults → Outcome Report
  unfolding to_results client_params direction_of
  report o cb local (finished remote) = finished (record {
    sent = framed (json.params_to_vec (client_params o cb));
    local = to_results local;
    remote = remote;
    direction = direction_of (dir_of o);
    latency = o.latency;
  })
  report o cb local failed = failed
  report o cb local panicked = panicked
  report o cb local pending = pending

  conclude : Opts → List ℕ → Option (List StreamStats) → List Chunk → Outcome Report
  unfolding report remote_of
  conclude o cb (some local) ctrl =
      report o cb local (remote_of (recv_msg json.results_from_slice ctrl))
  conclude o cb none ctrl = pending

  dial : Opts → List ℕ → Option (List Connection) → List Chunk → Outcome Report
  unfolding run_streams client_plan conclude
  dial o cb (some datas) ctrl = conclude o cb (run_streams false (client_plan o cb) datas) ctrl
  dial o cb none ctrl = failed

  -- A client whose host is an address: `random` is the random block, `ctrl` what arrives on the
  -- control connection if that is made, and `conns` the connections that can be made.
  unfoldable pub run_client :
      Opts
      → (random : Option (List ℕ)) → (ctrl : Option (List Chunk)) → List Connection
      → Outcome Report
  unfolding dial take_connections
  run_client o (some cb) (some ctrl) conns = dial o cb (take_connections o.parallel conns) ctrl
  run_client o _ _ conns = failed
