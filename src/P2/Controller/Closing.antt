-- ===== src/P2/Controller/Closing.antt =====
-- The end of a test on both sides, each at its end of one control connection.
use mathlib.Core.List.{append_assoc, append-nil}
use netperf.Prelude.{
  ℕ, suc, ◌≤◌, ◌<◌, ◌≡◌, ◌≢◌, ap, sym, ◌∙◌, some, List, [], ◌∷◌, ◌++◌, length, All,
}
use netperf.Prelude.Dicts.{get, Unique, get-TakenOut}
use netperf.Core.Stats.{TestResults}
use netperf.P2.Data.{server, client, max_control_message}
use netperf.P2.Control.{
  running, exchange_results, ClientMessage, ServerMessage, ClientEnvelope, ServerEnvelope,
}
use netperf.P2.Result.{Result}
use netperf.P2.Transport.{IsJson, Duplex}
use netperf.P2.NetUtils.RoundTrip.{frame}
use netperf.P2.NetUtils.Both.{Holds}
use netperf.P2.Runtime.{Runtime}
use netperf.P2.PerfTest.{StreamWorkerRef}
use netperf.P2.Controller.{TestController}
use netperf.P2.Controller.Run.{collect}
use netperf.P2.Controller.Loop.{from_server, run}
use netperf.P2.Controller.Completes.{Completes, notices, HasJoined, run-Completes}
use netperf.P2.Controller.Finishes.{run_client-Completes}

module _ (env : Runtime) where
  open env use {transport, server_json, client_json}

  -- A side whose streams are all of `order` and have ended: it has yet to read `pending`.
  record IsEnding (d : Duplex transport) (order : List (ℕ × StreamWorkerRef env))
      (local : TestResults) (sent pending : List ℕ) (c : TestController env) : Type 0 where
    pub state : c.test.state ≡ running
    pub each_once : Unique order
    pub numbered_once : Unique c.test.streams
    pub entries : (k : ℕ) → get k order ≡ get k c.test.streams
    pub ended : All (HasJoined env) order
    pub results : local ≡ record { streams = collect env order c.stream_results }
    pub socket : Holds transport d sent pending c.test.control_socket

  -- Both sides have ended well: they report the same two results, their own first, and each has
  -- written what the other one has read.
  record IsMirrored (d : Duplex transport)
      (sent_s sent_c rest_s rest_c by_server by_client : List ℕ) (of_server of_client : TestResults)
      (x y : Result (Unit {0}) × TestController env) : Type 0 where
    pub server_side : Completes env d (sent_s ++ by_server) rest_s of_server of_client x
    pub client_side : Completes env d (sent_c ++ by_client) rest_c of_client of_server y

  -- A running server and a running client, on sockets open both ways, with all streams' tasks
  -- ended and one notice of each stream in any order on either side, one stream at least on the
  -- server, with JSON lawful and texts within the limit: if what is to come at the server begins
  -- with the frame of the client's results, and what is to come at the client with the server's
  -- frames of ExchangeResults and of its results, then with fuel for one round more than there are
  -- streams on the server and two more on the client both loops end with ok, each reports its own
  -- collected results and the other's, each has written exactly the frames that the other has
  -- read, and what follows is left unread.
  run-IsMirrored :
      (d : Duplex transport) (is_server_json : IsJson ServerEnvelope server_json)
      (is_client_json : IsJson ClientEnvelope client_json)
      (told by_server by_client sent_s sent_c rest_s rest_c : List ℕ)
      (of_server of_client : TestResults) (fuel_s fuel_c : ℕ)
      (order_s order_c : List (ℕ × StreamWorkerRef env)) (s c : TestController env)
      → server_json.to_string
          (ServerEnvelope.server_message (ServerMessage.set_state exchange_results))
        ≡ some told
      → server_json.to_string (ServerEnvelope.server_message (ServerMessage.send_results of_server))
        ≡ some by_server
      → client_json.to_string (ClientEnvelope.client_message (ClientMessage.send_results of_client))
        ≡ some by_client
      → length told ≤ max_control_message
      → length by_server ≤ max_control_message
      → length by_client ≤ max_control_message
      → s.test.role ≡ server
      → c.test.role ≡ client
      → order_s ≢ []
      → length order_s < fuel_s
      → suc (length order_c) < fuel_c
      → IsEnding d order_s of_server sent_s (frame by_client ++ rest_s) s
      → IsEnding d order_c of_client sent_c (frame told ++ (frame by_server ++ rest_c)) c
      → IsMirrored d sent_s sent_c rest_s rest_c
          (frame told ++ frame by_server)
          (frame by_client)
          of_server
          of_client
          (run env fuel_s (notices env order_s) running s)
          (run env fuel_c (notices env order_c ++ from_server ∷ []) running c)
  run-IsMirrored d js jc told by_server by_client sent_s sent_c rest_s rest_c of_server of_client
        fuel_s fuel_c order_s order_c s c et es ec lt ls lc rs rc n fs fc hs hc =
      let taken = get-TakenOut order_c c.test.streams hc.each_once hc.numbered_once hc.entries in
      let whole =
        ap (λ l. record { streams = collect env l c.stream_results }) (append-nil order_c) in
      let x =
        run-Completes env d js jc told by_server by_client sent_s rest_s of_server of_client et es
          ec lt ls lc fuel_s order_s s fs n rs hs.state hs.each_once hs.numbered_once hs.entries
          hs.ended hs.results hs.socket in
      record {
        server_side = record {
          after = x.after;
          result = x.result;
          reported = x.reported;
          all_sent = x.all_sent ∙ append_assoc sent_s (frame told) (frame by_server);
          left = x.left;
        };
        client_side =
            run_client-Completes env d js jc told by_server by_client sent_c rest_c of_client
              of_server et es ec lt ls lc fuel_c order_c [] c fc rc hc.state taken hc.ended
              (hc.results ∙ sym whole) hc.socket;
      }
