-- ===== src/P2/Session/Ends.antt =====
-- The two sides of a whole test, each at its end of one control connection.
use mathlib.Core.List.{append_assoc}
use netperf.Prelude.{
  ℕ, suc, ◌+◌, ◌<◌, ◌≡◌, subst, String, false, Option, List, get_elem?, [], ◌∷◌, ◌++◌, length,
}
use netperf.Prelude.Dicts.{get, Unique}
use netperf.Core.Stats.{TestResults}
use netperf.P2.Data.{server, client, TestParameters, ClientOpts, from_opts, default_block_size}
use netperf.P2.Result.{Result, ok}
use netperf.P2.Transport.{Duplex}
use netperf.P2.NetUtils.RoundTrip.{frame}
use netperf.P2.NetUtils.Both.{Holds}
use netperf.P2.Runtime.{Runtime}
use netperf.P2.PerfTest.{StreamWorkerRef}
use netperf.P2.Controller.{Socket, TestController}
use netperf.P2.Controller.Loop.{from_server}
use netperf.P2.Controller.Completes.{notices}
use netperf.P2.Controller.Gathering.{connections}
use netperf.P2.Client.Handshake.{Agrees, create_test-negotiate, run_client-created}
use netperf.P2.Session.{Ending, done, run_client, serve}
use netperf.P2.Session.Script.{Script, client_says, server_says, ServerStreams, ClientStreams}
use netperf.P2.Session.Results.{
  stream_result, get-server_results, get-client_results, server_results-Unique,
  client_results-Unique,
}
use netperf.P2.Session.Sides.{HasEnded, serve-HasEnded, run_client-HasEnded}

append_three {ℓ} : {A : Type ℓ} (a b c r : List A) → (a ++ (b ++ c)) ++ r ≡ a ++ (b ++ (c ++ r))
append_three a b c r = simp append_assoc

append_all {ℓ} :
    {A : Type ℓ} (a b c e f r : List A)
    → (a ++ (b ++ (c ++ (e ++ f)))) ++ r ≡ a ++ (b ++ (c ++ (e ++ (f ++ r))))
append_all a b c e f r = simp append_assoc

module _ (env : Runtime) (d : Duplex (Runtime.transport env)) where
  open env use {transport, server_json, client_json}

  -- Both sides have ended well, each has read what the other has written, and the results of each
  -- are those of its workers: for each number the worker of the connection with that number, and
  -- no number twice.
  pub record End (params : TestParameters) (ss cs : List (Socket env))
      (by_server by_client rest_s rest_c : List ℕ) (of_server of_client : TestResults)
      (x : Result Ending × Option (TestController env))
      (y : Result (Unit {0}) × Option (TestController env)) : Type 0 where
    pub on_server : HasEnded env d done by_server rest_s of_server of_client x
    pub on_client : HasEnded env d tt by_client rest_c of_client of_server y
    pub server_workers :
        (k : ℕ) → get k of_server.streams ≡ stream_result env server params k (get_elem? ss k)
    pub client_workers :
        (k : ℕ) → get k of_client.streams ≡ stream_result env client params k (get_elem? cs k)
    pub server_once : Unique of_server.streams
    pub client_once : Unique of_client.streams

  -- The negotiation, with all that follows it to come.
  pub negotiated :
      (cookie address : String) (params : TestParameters) (of_server of_client : TestResults)
      (x : Script env d cookie params of_server of_client) (rest_s rest_c : List ℕ)
      (s c : Socket env)
      → Holds transport d [] (client_says env d x ++ rest_s) s
      → Holds transport d [] (server_says env d x ++ rest_c) c
      → Agrees env d cookie address params x.hello x.welcome x.parameters [] []
          (frame x.called ++ (frame x.started ++ (frame x.told ++ (frame x.by_server ++ rest_c))))
          (frame x.by_client ++ rest_s)
          c
          s
  negotiated cookie address params of_server of_client x rest_s rest_c s c hs hc =
      create_test-negotiate env d cookie address params x.hello x.welcome x.parameters [] []
        (frame x.called ++ (frame x.started ++ (frame x.told ++ (frame x.by_server ++ rest_c))))
        (frame x.by_client ++ rest_s) c s x.negotiation
        (subst (λ l. Holds transport d [] l c)
          (append_all (frame x.welcome) (frame x.called) (frame x.started) (frame x.told)
            (frame x.by_server) rest_c)
          hc)
        (subst (λ l. Holds transport d [] l s)
          (append_three (frame x.hello) (frame x.parameters) (frame x.by_client) rest_s) hs)

  -- Both sides of a whole test, from the first message to the last. Suppose that JSON is lawful
  -- and all texts are within the limit, that the client's connection is made and both control
  -- sockets are open both ways, that what each side writes in the course of a test is what arrives
  -- at the other, followed by anything, and that the server has not timed out; that the server
  -- meets as many connections as the parameters call for, one at least, and then a notice of each
  -- stream in any order, all their tasks having ended; that the client can make as many
  -- connections, each with its handshake, and meets between two messages the notices of any of its
  -- streams, whose tasks have ended. Then with fuel for two rounds more than the server has
  -- connections and notices, and four more than the client has notices, both sides end with
  -- success: each has written exactly what the other has read and left what follows unread, each
  -- reports its own results and then the other's, and for each number these results hold what the
  -- worker of the connection with that number has returned, if it ended well, no number twice.
  pub run_client-serve :
      (cookie address version : String) (opts : ClientOpts) (of_server of_client : TestResults)
      (x : Script env d cookie (from_opts version opts default_block_size) of_server of_client)
      (rest_s rest_c : List ℕ) (s c s₀ : Socket env) (ss cs : List (Socket env))
      (order reported going : List (ℕ × StreamWorkerRef env)) (fuel_s fuel_c : ℕ)
      → suc (suc (length ss) + length order) < fuel_s
      → 3 + length reported < fuel_c
      → Runtime.connect env address 0 ≡ ok c
      → Holds transport d [] (client_says env d x ++ rest_s) s
      → Holds transport d [] (server_says env d x ++ rest_c) c
      → ServerStreams env d cookie
          (from_opts version opts default_block_size)
          s
          (s₀ ∷ ss)
          order
          of_server
      → ClientStreams env d cookie address
          (from_opts version opts default_block_size)
          c
          cs
          reported
          going
          of_client
      → End
          (from_opts version opts default_block_size)
          (s₀ ∷ ss)
          cs
          (server_says env d x)
          (client_says env d x)
          rest_s
          rest_c
          of_server
          of_client
          (serve env false s fuel_s (connections env (s₀ ∷ ss) ++ notices env order))
          (run_client env address cookie version opts fuel_c
            (from_server ∷ from_server ∷ (notices env reported ++ from_server ∷ [])))
  run_client-serve cookie address version opts of_server of_client x rest_s rest_c s c s₀ ss cs
        order reported going fuel_s fuel_c l m e hs hc streams_s streams_c =
      let params = from_opts version opts default_block_size in
      let a = negotiated cookie address params of_server of_client x rest_s rest_c s c hs hc in
      record {
        on_server =
            serve-HasEnded env d cookie params of_server of_client x rest_s s a.after_s s₀ ss order
              fuel_s l streams_s a.server_done a.server_holds;
        on_client =
            run_client-HasEnded env d cookie address version opts of_server of_client x rest_c c
              a.after_c cs reported going fuel_c m streams_c
              (run_client-created env d address cookie version opts c a.after_c e a.client_done)
              a.client_holds;
        server_workers =
            get-server_results env d cookie params s (s₀ ∷ ss) order of_server streams_s;
        client_workers =
            get-client_results env d cookie address params c cs reported going of_client streams_c;
        server_once =
            server_results-Unique env d cookie params s (s₀ ∷ ss) order of_server streams_s;
        client_once =
            client_results-Unique env d cookie address params c cs reported going of_client
              streams_c;
      }
