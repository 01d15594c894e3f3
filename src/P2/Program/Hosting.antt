-- ===== src/P2/Program/Hosting.antt =====
-- Both sides of a whole test from their options on.
use netperf.Prelude.{
  ℕ, suc, ◌+◌, ◌≤◌, ◌<◌, ◌≡◌, refl, ap, ◌∙◌, String, true, false, Option, some, List, [], ◌∷◌, ◌++◌,
  map, length, All,
}
use netperf.Core.Stats.{TestResults}
use netperf.P2.Data.{from_opts, default_block_size, internal_prot_buffer}
use netperf.P2.Control.{create_streams}
use netperf.P2.Result.{Result, ok}
use netperf.P2.Transport.{Duplex}
use netperf.P2.NetUtils.Both.{Holds}
use netperf.P2.Runtime.{Runtime, Mpsc, IsMpsc}
use netperf.P2.PerfTest.{PerfTest, StreamWorkerRef}
use netperf.P2.Controller.{ControllerMessage, Socket, TestController}
use netperf.P2.Controller.Loop.{Choice, from_server}
use netperf.P2.Controller.Completes.{notices}
use netperf.P2.Server.{Event, accept, controller, Server, idle, run_server}
use netperf.P2.Server.Arrivals.{welcomed, IsArriving, arrivals}
use netperf.P2.Session.{run_client}
use netperf.P2.Session.Script.{Script, client_says, server_says, ServerStreams, ClientStreams}
use netperf.P2.Session.Hosts.{Hosts, run_server-run_client}
use netperf.P2.Program.{Opts, address_of, Ran, served, measured, run}

module _ (env : Runtime) (queue : Mpsc (ControllerMessage (Socket env))) where
  abbrev pub served_by : Result (Unit {0}) × Server env queue → Result (Unit {0}) × Ran env queue
  served_by x = (x.0, served (some x.1))

  abbrev pub measured_by :
      Result (Unit {0}) × Option (TestController env) → Result (Unit {0}) × Ran env queue
  measured_by x = (x.0, measured x.1)

  run-served :
      (bind : ℕ → Result (List (Event env queue))) (cookie version : String) (opts : Opts)
      (fuel : ℕ) (schedule : List (Choice (Socket env))) (events : List (Event env queue))
      → opts.server_opts.server ≡ true
      → bind opts.common_opts.port ≡ ok events
      → run env queue bind cookie version opts fuel schedule
        ≡ served_by (run_server env queue events (idle env queue))
  unfolding run
  run-served bind cookie version opts fuel schedule events e f = rw (e, f) refl

  run-measured :
      (bind : ℕ → Result (List (Event env queue))) (cookie version host : String) (opts : Opts)
      (fuel : ℕ) (schedule : List (Choice (Socket env)))
      → opts.server_opts.server ≡ false
      → opts.client_opts.client ≡ some host
      → run env queue bind cookie version opts fuel schedule
        ≡ measured_by (
            run_client env
              (address_of host opts.common_opts.port)
              cookie
              version
              opts.client_opts
              fuel
              schedule)
  unfolding run
  run-measured bind cookie version host opts fuel schedule e f = rw (e, f) refl

  -- What the listener meets: the control connection, then the data connections while the
  -- controller waits for them.
  abbrev pub meets :
      (cookie : String) (s : Socket env) (ins : List (Socket env)) (events : List (Event env queue))
      → List (Event env queue)
  meets cookie s ins events =
      accept s false
      ∷ controller (create_streams cookie) (Mpsc.channel queue internal_prot_buffer)
      ∷ arrivals env queue ins events

  -- A server that has started the one test and goes on.
  abbrev pub goes_on :
      String
      → PerfTest env
      → Mpsc.Channel queue
      → List (Event env queue)
      → Result (Unit {0}) × Server env queue
  goes_on cookie test channel events = run_server env queue events (record {
    in_flight = some (create_streams cookie);
    controller_channel = some channel;
    tests = test ∷ [];
    refused = [];
  })

  module _ (d : Duplex (Runtime.transport env))
      (q : IsMpsc (ControllerMessage (Socket env)) queue) where
    -- A whole test from the options of both programs on. Let the options of the one say to be a
    -- server and its port be bound; let the options of the other say to be a client of a host, and
    -- nothing of a server. Under the conditions of a whole test of both sides, with the parameters
    -- that the client's options give, let the connection to the host and port of those options be
    -- made, and let the listener meet the control connection and then, with its controller at
    -- CreateStreams and the channel empty, as many data connections as are needed, not more than
    -- the channel takes, on each of which the hello with the cookie of the test arrives. Then the
    -- server's `run` has started exactly one test, the one that the negotiation creates, has
    -- refused nobody and goes on with what else it meets; and if the controller of that test
    -- receives what waits in its channel in order, and then the notices of its streams, it and the
    -- client's `run` end with success: each has written exactly what the other has read, each
    -- reports its own results and then the other's, and these are the results of the workers of
    -- the welcomed connections and of the client's.
    pub run-Hosts :
        (cookie host version : String) (opts_s opts_c : Opts) (of_server of_client : TestResults)
        (x : Script env d cookie
          (from_opts version opts_c.client_opts default_block_size)
          of_server
          of_client)
        (rest_s rest_c : List ℕ) (s c i₀ : Socket env) (ins cs : List (Socket env))
        (order reported going : List (ℕ × StreamWorkerRef env)) (fuel_s fuel_c : ℕ)
        (events : List (Event env queue)) (bind : ℕ → Result (List (Event env queue)))
        → opts_s.server_opts.server ≡ true
        → bind opts_s.common_opts.port ≡ ok (meets cookie s (i₀ ∷ ins) events)
        → opts_c.server_opts.server ≡ false
        → opts_c.client_opts.client ≡ some host
        → suc (suc (length ins) + length order) < fuel_s
        → 3 + length reported < fuel_c
        → suc (length ins) ≤ internal_prot_buffer
        → Runtime.connect env (address_of host opts_c.common_opts.port) 0 ≡ ok c
        → Holds (Runtime.transport env) d [] (client_says env d x ++ rest_s) s
        → Holds (Runtime.transport env) d [] (server_says env d x ++ rest_c) c
        → All (IsArriving env d x.hello) (i₀ ∷ ins)
        → ServerStreams env d cookie
            (from_opts version opts_c.client_opts default_block_size)
            s
            (map (welcomed env) (i₀ ∷ ins))
            order
            of_server
        → ClientStreams env d cookie
            (address_of host opts_c.common_opts.port)
            (from_opts version opts_c.client_opts default_block_size)
            c
            cs
            reported
            going
            of_client
        → (y : Result (Unit {0}) × Option (TestController env)) × (h : Hosts env d queue q cookie
            (from_opts version opts_c.client_opts default_block_size)
            s
            (i₀ ∷ ins)
            cs
            order
            events
            fuel_s
            (server_says env d x)
            (client_says env d x)
            rest_s
            rest_c
            of_server
            of_client
            y)
          × (run env queue bind cookie version opts_s 0 []
              ≡ served_by (goes_on cookie h.test h.channel events))
          × (run env queue bind cookie version opts_c fuel_c
                (from_server ∷ from_server ∷ (notices env reported ++ from_server ∷ []))
              ≡ measured_by y)
    run-Hosts cookie host version opts_s opts_c of_server of_client x rest_s rest_c s c i₀ ins cs
          order reported going fuel_s fuel_c events bind serves binds dials named l m room e hs hc
          arriving streams_s streams_c =
        let address = address_of host opts_c.common_opts.port in
        let schedule = from_server ∷ from_server ∷ (notices env reported ++ from_server ∷ []) in
        let h =
          run_server-run_client env d queue q cookie address version opts_c.client_opts of_server
            of_client x rest_s rest_c s c i₀ ins cs order reported going fuel_s fuel_c events l m
            room e hs hc arriving streams_s streams_c in
        (
          run_client env address cookie version opts_c.client_opts fuel_c schedule,
          h,
          run-served bind cookie version opts_s 0 [] _ serves binds ∙ ap served_by h.accepted,
          run-measured bind cookie version host opts_c fuel_c schedule dials named,
        )
