-- ===== src/P2/Session/Hosts.antt =====
-- A whole test from the accept loop of the server on.
use netperf.Prelude.{
  ℕ, suc, ◌+◌, ◌≤◌, ◌<◌, ◌≡◌, refl, ap, sym, ◌∙◌, subst, String, Option, none, false, length-map,
  some, List, [], ◌∷◌, ◌++◌, map, length, All, arith,
}
use netperf.Core.Stats.{TestResults}
use netperf.P2.Data.{
  ClientOpts, TestParameters, from_opts, default_block_size, internal_prot_buffer, server,
}
use netperf.P2.Control.{create_streams}
use netperf.P2.Result.{Result, ok}
use netperf.P2.Transport.{Duplex}
use netperf.P2.NetUtils.Both.{Holds}
use netperf.P2.Runtime.{Runtime, Mpsc, IsMpsc}
use netperf.P2.PerfTest.{PerfTest, StreamWorkerRef, new}
use netperf.P2.Controller.{ControllerMessage, create_stream, Socket, TestController}
use netperf.P2.Controller.Loop.{Choice, internal, from_server}
use netperf.P2.Controller.Completes.{notices}
use netperf.P2.Controller.Gathering.{connections}
use netperf.P2.Server.{Event, accept, controller, Server, idle, create_test, run_server}
use netperf.P2.Server.Arrivals.{
  welcomed, IsArriving, arrivals, queued, run_server-created, run_server-progress,
  run_server-arrivals, waiting-queued,
}
use netperf.P2.Session.{run_client, serve}
use netperf.P2.Session.Script.{Script, client_says, server_says, ServerStreams, ClientStreams}
use netperf.P2.Session.Ends.{End, run_client-serve, negotiated}

module _ (env : Runtime) where
  -- A controller that receives the messages of its channel in their order.
  abbrev pub delivered : List (ControllerMessage (Socket env)) → List (Choice (Socket env))
  delivered [] = []
  delivered (m ∷ messages) = internal (some m) 0 ∷ delivered messages

  delivered-connections :
      (ss : List (Socket env)) → connections env ss ≡ delivered (map create_stream ss)
  delivered-connections [] = refl
  delivered-connections (s ∷ ss) =
      ap (λ l. internal (some (create_stream s)) 0 ∷ l) (delivered-connections ss)

  module _ (d : Duplex (Runtime.transport env)) (queue : Mpsc (ControllerMessage (Socket env)))
      (q : IsMpsc (ControllerMessage (Socket env)) queue) where
    -- The accept loop has started one test, whose controller finds the data connections in its
    -- channel, and both sides of the test end well.
    pub record Hosts (cookie : String) (params : TestParameters) (s : Socket env)
        (ins cs : List (Socket env)) (order : List (ℕ × StreamWorkerRef env))
        (events : List (Event env queue)) (fuel : ℕ) (by_server by_client rest_s rest_c : List ℕ)
        (of_server of_client : TestResults) (y : Result (Unit {0}) × Option (TestController env))
        : Type 0 where
      pub test : PerfTest env
      pub after : Socket env
      pub channel : Mpsc.Channel queue
      pub created : create_test env false s ≡ (ok test, after)
      pub accepted :
          run_server env queue
            (accept s false
              ∷ controller (create_streams cookie) (Mpsc.channel queue internal_prot_buffer)
              ∷ arrivals env queue ins events)
            (idle env queue)
          ≡ run_server env queue events (record {
            in_flight = some (create_streams cookie);
            controller_channel = some channel;
            tests = test ∷ [];
            refused = [];
          })
      pub both_end :
          End env d params
            (map (welcomed env) ins)
            cs
            by_server
            by_client
            rest_s
            rest_c
            of_server
            of_client
            (serve env false s fuel (delivered (q.waiting channel) ++ notices env order))
            y

    -- A whole test from the accept loop on. Under the conditions of a whole test of both sides,
    -- let a server without a test accept the client's control connection and then, with its
    -- controller at CreateStreams and the channel empty, as many data connections as are needed,
    -- not more than the channel takes, on each of which the hello with the cookie of the test
    -- arrives. Then the loop has started exactly one test, the one that the negotiation creates,
    -- has refused nobody and goes on; and if the controller of that test receives what waits in
    -- its channel in order, and then the notices of its streams, both sides end with success: each
    -- has written exactly what the other has read, each reports its own results and then the
    -- other's, and these are the results of the workers of the welcomed connections and of the
    -- client's.
    pub run_server-run_client :
        (cookie address version : String) (opts : ClientOpts) (of_server of_client : TestResults)
        (x : Script env d cookie (from_opts version opts default_block_size) of_server of_client)
        (rest_s rest_c : List ℕ) (s c i₀ : Socket env) (ins cs : List (Socket env))
        (order reported going : List (ℕ × StreamWorkerRef env)) (fuel_s fuel_c : ℕ)
        (events : List (Event env queue))
        → suc (suc (length ins) + length order) < fuel_s
        → 3 + length reported < fuel_c
        → suc (length ins) ≤ internal_prot_buffer
        → Runtime.connect env address 0 ≡ ok c
        → Holds (Runtime.transport env) d [] (client_says env d x ++ rest_s) s
        → Holds (Runtime.transport env) d [] (server_says env d x ++ rest_c) c
        → All (IsArriving env d x.hello) (i₀ ∷ ins)
        → ServerStreams env d cookie
            (from_opts version opts default_block_size)
            s
            (map (welcomed env) (i₀ ∷ ins))
            order
            of_server
        → ClientStreams env d cookie address
            (from_opts version opts default_block_size)
            c
            cs
            reported
            going
            of_client
        → Hosts cookie
            (from_opts version opts default_block_size)
            s
            (i₀ ∷ ins)
            cs
            order
            events
            fuel_s
            (server_says env d x)
            (client_says env d x)
            rest_s
            rest_c
            of_server
            of_client
            (run_client env address cookie version opts fuel_c
              (from_server ∷ from_server ∷ (notices env reported ++ from_server ∷ [])))
    run_server-run_client cookie address version opts of_server of_client x rest_s rest_c s c i₀ ins
          cs order reported going fuel_s fuel_c events l m room e hs hc arriving streams_s
          streams_c =
        let params = from_opts version opts default_block_size in
        let a =
          negotiated env d cookie address params of_server of_client x rest_s rest_c s c hs hc in
        let test = new env none cookie a.after_s server params in
        let first = Mpsc.channel queue internal_prot_buffer in
        let behind : Server env queue = record {
          in_flight = some (create_streams cookie);
          controller_channel = some first;
          tests = test ∷ [];
          refused = [];
        } in
        let n = x.negotiation in
        let empty = q.waiting-channel internal_prot_buffer in
        let size = q.capacity-channel internal_prot_buffer in
        let fits : length (q.waiting first) + length (i₀ ∷ ins) ≤ q.capacity first =
          omega (arith, ap length empty, size) in
        let all =
          waiting-queued env queue d q x.hello x.welcome cookie n.is_client_json n.hello_text
            n.welcome_text n.hello_fits n.welcome_fits (i₀ ∷ ins) first fits
          ∙ ap (λ l. l ++ map create_stream (map (welcomed env) (i₀ ∷ ins))) empty in
        let schedule =
          delivered-connections (map (welcomed env) (i₀ ∷ ins)) ∙ ap delivered (sym all) in
        record {
          test = test;
          after = a.after_s;
          channel = queued env queue (i₀ ∷ ins) first;
          created = a.server_done;
          accepted =
              run_server-created env queue s a.after_s test _ a.server_done
              ∙ run_server-progress env queue test.state (create_streams cookie) first _ _ refl
              ∙ run_server-arrivals env queue d q x.hello x.welcome cookie n.is_client_json
                  n.hello_text n.welcome_text n.hello_fits n.welcome_fits (i₀ ∷ ins) events first
                  behind refl refl fits arriving;
          both_end =
              subst
                (λ l.
                  End env d params (map (welcomed env) (i₀ ∷ ins)) cs (server_says env d x)
                    (client_says env d x) rest_s rest_c of_server of_client
                    (serve env false s fuel_s (l ++ notices env order))
                    (run_client env address cookie version opts fuel_c
                      (from_server ∷ from_server ∷ (notices env reported ++ from_server ∷ []))))
                schedule
                (run_client-serve env d cookie address version opts of_server of_client x rest_s
                  rest_c s c (welcomed env i₀) (map (welcomed env) ins) cs order reported going
                  fuel_s fuel_c (omega (arith, length-map ins (welcomed env))) m e hs hc streams_s
                  streams_c);
        }
