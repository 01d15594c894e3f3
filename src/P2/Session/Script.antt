-- ===== src/P2/Session/Script.antt =====
-- What is said on the control connection of a whole test, and the streams of its two sides.
use netperf.Prelude.{ℕ, ◌≤◌, ◌≡◌, ◌≢◌, String, some, none, List, [], ◌++◌, length, All}
use netperf.Prelude.Dicts.{get, Unique, TakenOut}
use netperf.Core.Stats.{TestResults}
use netperf.P2.Data.{server, client, max_control_message, TestParameters}
use netperf.P2.Control.{
  create_streams, running, exchange_results, ClientMessage, ServerMessage, ClientEnvelope,
  ServerEnvelope,
}
use netperf.P2.Transport.{Duplex}
use netperf.P2.NetUtils.RoundTrip.{frame}
use netperf.P2.Runtime.{Runtime}
use netperf.P2.PerfTest.{StreamWorkerRef}
use netperf.P2.Controller.{Socket}
use netperf.P2.Controller.Run.{collect}
use netperf.P2.Controller.Completes.{HasJoined}
use netperf.P2.Controller.Joining.{Dialed}
use netperf.P2.Client.Handshake.{Texts}
use netperf.P2.Session.Start.{needed, controller_of, loaded}

module _ (env : Runtime) (d : Duplex (Runtime.transport env)) where
  open env use {transport, server_json, client_json}

  -- The texts of all messages of a test, within the limit.
  pub record Script (cookie : String) (params : TestParameters) (of_server of_client : TestResults)
      : Type 0 where
    pub hello : List ℕ
    pub welcome : List ℕ
    pub parameters : List ℕ
    pub called : List ℕ
    pub started : List ℕ
    pub told : List ℕ
    pub by_server : List ℕ
    pub by_client : List ℕ
    pub negotiation : Texts env d cookie params hello welcome parameters
    pub called_text :
        server_json.to_string
          (ServerEnvelope.server_message (ServerMessage.set_state (create_streams cookie)))
        ≡ some called
    pub started_text :
        server_json.to_string (ServerEnvelope.server_message (ServerMessage.set_state running))
        ≡ some started
    pub told_text :
        server_json.to_string
          (ServerEnvelope.server_message (ServerMessage.set_state exchange_results))
        ≡ some told
    pub server_text :
        server_json.to_string (ServerEnvelope.server_message (ServerMessage.send_results of_server))
        ≡ some by_server
    pub client_text :
        client_json.to_string (ClientEnvelope.client_message (ClientMessage.send_results of_client))
        ≡ some by_client
    pub called_fits : length called ≤ max_control_message
    pub started_fits : length started ≤ max_control_message
    pub told_fits : length told ≤ max_control_message
    pub server_fits : length by_server ≤ max_control_message
    pub client_fits : length by_client ≤ max_control_message

  -- All that a client writes on the control connection, and all that a server does.
  abbrev pub client_says :
      {cookie : String} {params : TestParameters} {of_server of_client : TestResults}
      → Script cookie params of_server of_client
      → List ℕ
  client_says x = frame x.hello ++ (frame x.parameters ++ frame x.by_client)

  abbrev pub server_says :
      {cookie : String} {params : TestParameters} {of_server of_client : TestResults}
      → Script cookie params of_server of_client
      → List ℕ
  server_says x =
      frame x.welcome
      ++ (frame x.called ++ (frame x.started ++ (frame x.told ++ frame x.by_server)))

  -- The streams of a server: as many connections as are needed, and the notices of all their
  -- workers in the order `order`, whose tasks have ended.
  pub record ServerStreams (cookie : String) (params : TestParameters) (s : Socket env)
      (ss : List (Socket env)) (order : List (ℕ × StreamWorkerRef env)) (results : TestResults)
      : Type 0 where
    pub all_there : needed params ≡ length ss
    pub some_notice : order ≢ []
    pub each_once : Unique order
    pub entries :
        (k : ℕ)
        → get k order ≡ get k (loaded env ss (controller_of env none cookie s server params))
    pub ended : All (HasJoined env) order
    pub collected : results ≡ record { streams = collect env order [] }

  -- The streams of a client: as many connections as are needed, each with its handshake, and the
  -- notices of the workers `reported`, whose tasks have ended.
  pub record ClientStreams (cookie address : String) (params : TestParameters) (c : Socket env)
      (cs : List (Socket env)) (reported going : List (ℕ × StreamWorkerRef env))
      (results : TestResults) : Type 0 where
    pub all_there : needed params ≡ length cs
    pub dialed : Dialed env cookie address 0 cs
    pub taken :
        TakenOut reported
          (loaded env cs (controller_of env (some address) cookie c client params))
          going
    pub ended : All (HasJoined env) reported
    pub collected : results ≡ record { streams = collect env (reported ++ going) [] }
