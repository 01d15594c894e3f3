-- ===== src/Tests/Hosts.antt =====
-- The same test from the accept loop of the server on.
use netperf.Prelude.{
  ℕ, ◌≡◌, ◌==◌, true, false, Option, none, List, [], ◌∷◌, ◌++◌, refl, arith, if◌then◌else◌,
}
use netperf.P2.Data.{from_opts, default_block_size}
use netperf.P2.PerfTest
use netperf.P2.Controller.{
  TestController, new, create_and_register_stream_worker, broadcast_to_streams,
}
use netperf.P2.Controller.Run.{collect}
use netperf.P2.Controller.Loop.{Choice, from_server}
use netperf.P2.Controller.Completes.{notices}
use netperf.P2.Server.{Event, accept_failed}
use netperf.P2.Result.{Result, ok, err, io}
use netperf.P2.Server.Arrivals.{welcomed, IsArriving}
use netperf.P2.Session.Script.{ServerStreams}
use netperf.P2.Session.Hosts.{Hosts}
use netperf.P2.Program.{CommonOpts, Opts, address_of, run}
use netperf.P2.Program.Hosting.{meets, goes_on, served_by, measured_by, run-Hosts}
use netperf.Tests.Network.{Wire, wires_Duplex}
use netperf.Tests.Server.{streams, streams-IsMpsc}
use netperf.Tests.Session.{
  text, from_server_side, from_client_side, wire, net, opts, server_results, client_results, script,
  ref, server_order, swapped, greeted_socket, client_streams,
}
use netperf.P2.NetUtils.RoundTrip.{frame}

-- A data connection on which the hello arrives.
abbrev inbound : Wire
inbound = wire (frame (text 1))

inbound-IsArriving : IsArriving net wires_Duplex (text 1) inbound
inbound-IsArriving = record {
  sent = [];
  rest = [];
  holds = record { reading = tt; writing = tt; sent_so_far = refl; to_come = refl };
}

server_streams :
    ServerStreams net wires_Duplex "secret"
      (from_opts "0.1" opts default_block_size)
      (wire (from_client_side ++ 9 ∷ []))
      (welcomed net inbound ∷ welcomed net inbound ∷ [])
      server_order
      server_results
unfolding from_opts collect broadcast_to_streams create_and_register_stream_worker new PerfTest.new
server_streams = record {
  all_there = refl;
  some_notice = λ e. cc;
  each_once = (refl, (refl, tt));
  entries = swapped;
  ended = (tt, (tt, tt));
  collected = refl;
}

abbrev port : CommonOpts
port = record { port = 7559; interval = 1 }

abbrev server_side : Opts
server_side = record {
  server_opts = record { server = true };
  client_opts = record opts { client = none };
  common_opts = port;
}

abbrev client_side : Opts
client_side = record {
  server_opts = record { server = false };
  client_opts = opts;
  common_opts = port;
}

-- What the listener meets.
abbrev met : List (Event net streams)
met =
    meets net streams "secret" (wire (from_client_side ++ 9 ∷ [])) (inbound ∷ inbound ∷ [])
      (accept_failed ∷ [])

abbrev bind : ℕ → Result (List (Event net streams))
bind p = if p == 7559 then ok met else err io

abbrev schedule : List (Choice Wire)
schedule = from_server ∷ from_server ∷ (notices net ((1, ref true 1) ∷ []) ++ from_server ∷ [])

run-Hosts_example :
    (y : Result (Unit {0}) × Option (TestController net)) × (h : Hosts net wires_Duplex streams
      streams-IsMpsc "secret"
      (from_opts "0.1" opts default_block_size)
      (wire (from_client_side ++ 9 ∷ []))
      (inbound ∷ inbound ∷ [])
      (greeted_socket ∷ greeted_socket ∷ [])
      server_order
      (accept_failed ∷ [])
      6
      from_server_side
      from_client_side
      (9 ∷ [])
      (8 ∷ [])
      server_results
      client_results
      y)
    × (run net streams bind "secret" "0.1" server_side 0 []
        ≡ served_by net streams
            (goes_on net streams "secret" h.test h.channel (accept_failed ∷ [])))
    × (run net streams bind "secret" "0.1" client_side 5 schedule ≡ measured_by net streams y)
unfolding script address_of
run-Hosts_example =
    run-Hosts net streams wires_Duplex streams-IsMpsc "secret" "127.0.0.1" "0.1" server_side
      client_side server_results client_results script (9 ∷ []) (8 ∷ [])
      (wire (from_client_side ++ 9 ∷ [])) (wire (from_server_side ++ 8 ∷ [])) inbound (inbound ∷ [])
      (greeted_socket ∷ greeted_socket ∷ []) server_order ((1, ref true 1) ∷ [])
      ((0, ref true 0) ∷ []) 6 5 (accept_failed ∷ []) bind refl refl refl refl (omega arith)
      (omega arith) (omega arith) refl
      (record { reading = tt; writing = tt; sent_so_far = refl; to_come = refl })
      (record { reading = tt; writing = tt; sent_so_far = refl; to_come = refl })
      (inbound-IsArriving, (inbound-IsArriving, tt)) server_streams client_streams
