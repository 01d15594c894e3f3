-- ===== src/Tests/Program.antt =====
-- The p3 build on both sides, with one stream and with two.
use netperf.Prelude.{
  ℕ, ◌≡◌, refl, Bool, true, false, none, some, List, [], ◌∷◌, ◌++◌, map, arith, inl,
}
use netperf.Prelude.Bytes.{from_le_bytes_64}
use netperf.Core.Stats.{client_to_server, StreamStats}
use netperf.P3.Roles.{direction_of}
use netperf.P3.Frames.{complete, framed}
use netperf.P3.Transfer.{client_conn, server_conn, data_of, write_data, read_data}
use netperf.P3.Session.{
  Opts, Connection, Plan, finished, run_streams, to_results, client_plan, client_params, dir_of,
}
use netperf.P3.Session.Forward.{Carries, Delivers, run_streams-Delivers}
use netperf.P3.Run.{Host, answered, reported, listen, connect, run}
use netperf.P3.Run.Both.{run-Both}
use netperf.Tests.Transfer.{
  cookie, whole_write, late_write, no_sends, no_receives, greeting, portions, sending, receiving,
}
use netperf.Tests.Codec.{codec, codec-IsCodec}

abbrev opts : Opts
opts = record {
  server = false;
  client = none;
  port = 7600;
  time = 1;
  length = 4;
  parallel = 1;
  reverse = false;
  bidir = false;
  latency = false;
}

abbrev client_side : List Connection
client_side = record { greeting = greeting; sends = sending; receives = no_receives } ∷ []

abbrev server_side : List Connection
server_side = record { greeting = greeting; sends = no_sends; receives = receiving } ∷ []

abbrev stats : Bool → ℕ → StreamStats
stats sender millis = record {
  sender = sender;
  duration_millis = millis;
  bytes_transferred = 4;
  syscalls = 0;
  latency = none;
}

abbrev params : List ℕ
params = 0 ∷ 1 ∷ 4 ∷ 1 ∷ from_le_bytes_64 cookie ∷ 0 ∷ []

abbrev results : List ℕ
results = 0 ∷ 0 ∷ 1001 ∷ 4 ∷ 0 ∷ []

-- Sockets are numbers. A server's first connection is the control connection.
abbrev host : List ℕ → Connection → Host
host control c = record {
  TcpSocket = ℕ;
  create = λ n. some n;
  bind = λ a s. some s;
  connect = λ a s. some s;
  listen = λ s. some (1 ∷ 2 ∷ []);
  control = λ s. map complete (control ∷ []) ++ [];
  streams = λ s. c;
  from_str = λ text. some (127, 0, 0, 1);
  random = some cookie;
}

abbrev server_host : Host
server_host =
    host (framed (some params))
      (record { greeting = greeting; sends = no_sends; receives = receiving })

abbrev client_host : Host
client_host =
    host (framed (some results))
      (record { greeting = greeting; sends = sending; receives = no_receives })

abbrev server_opts : Opts
server_opts = record opts { server = true }

run-Both_example :
    (run server_host codec server_opts ≡ finished (answered (framed (some results))))
    × (run client_host codec opts
        ≡ finished (
            reported (record {
              sent = framed (some params);
              local = to_results (stats true 1000 ∷ []);
              remote = to_results (stats false 1001 ∷ []);
              direction = direction_of (dir_of opts);
              latency = false;
            })))
unfolding run_streams client_plan client_params to_results framed client_conn write_data data_of
    server_conn read_data listen connect
run-Both_example =
    run-Both server_host client_host codec codec-IsCodec server_opts opts cookie client_side
      server_side [] (stats true 1000 ∷ []) (stats false 1001 ∷ []) params results [] []
      (framed (some results) ∷ []) (framed (some params) ∷ []) [] []
      (record {
        is_server = refl;
        socket = 0;
        control = 1;
        others = 2 ∷ [];
        bound = refl;
        accepted = refl;
        to_read = refl;
        data_connections = refl;
      })
      (record {
        is_client = refl;
        addr = (127, 0, 0, 1);
        parsed = refl;
        filled = refl;
        control = 0;
        connected = refl;
        to_read = refl;
        data_connections = ((1, refl, refl), tt);
      })
      refl
      (
        omega arith,
        (
          omega arith,
          (
            omega arith,
            (omega arith, (omega arith, (omega arith, (omega arith, (omega arith, tt))))),
          ),
        ),
      )
      (omega arith) refl refl refl refl refl refl (omega arith) (omega arith) refl refl

-- Two connections, each of which takes a block of four bytes.
abbrev forward : Plan
forward = record {
  cookie = cookie;
  sending = true;
  receiving = false;
  block = 4;
  secs = 1;
  measure = false;
}

abbrev client_end : Connection
client_end = record { greeting = greeting; sends = sending; receives = no_receives }

abbrev server_end : Connection
server_end = record { greeting = greeting; sends = no_sends; receives = receiving }

carried : Carries forward client_end server_end
unfolding client_conn data_of write_data
carried = record {
  before = whole_write ∷ [];
  stop = late_write;
  late = [];
  portions = portions;
  rest = [];
  writes = refl;
  whole = ((omega arith, refl), tt);
  ends = inl (omega arith);
  small = omega arith;
  reads = refl;
  greets = (refl, refl);
  bytes = refl;
}

run_streams-Delivers_example :
    Delivers forward (client_end ∷ client_end ∷ []) (server_end ∷ server_end ∷ []) client_to_server
run_streams-Delivers_example =
    run_streams-Delivers forward (client_end ∷ client_end ∷ []) (server_end ∷ server_end ∷ [])
      client_to_server refl
      (record { sends = refl; only_sends = refl; some_block = omega arith; whole_cookie = refl })
      (carried, (carried, tt)) (omega arith)
