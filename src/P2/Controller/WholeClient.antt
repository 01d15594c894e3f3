-- ===== src/P2/Controller/WholeClient.antt =====
-- A whole test on a client, from the first message of its server on.
use netperf.Prelude.{
  ℕ, zero, suc, ◌+◌, ◌≤◌, ◌<◌, ◌≡◌, refl, ap, sym, ◌∙◌, String, some, List, [], ◌∷◌, ◌++◌, length,
  arith, All,
}
use netperf.Prelude.Dicts.{TakenOut}
use netperf.Core.Stats.{TestResults}
use netperf.P2.Data.{client, max_control_message}
use netperf.P2.Control.{
  State, test_start, create_streams, running, exchange_results, ClientMessage, ServerMessage,
  ClientEnvelope, ServerEnvelope,
}
use netperf.P2.Result.{ok, next}
use netperf.P2.Transport.{IsJson, Duplex}
use netperf.P2.NetUtils.{client_read_message}
use netperf.P2.NetUtils.RoundTrip.{frame}
use netperf.P2.NetUtils.Both.{Holds, read_lem}
use netperf.P2.Runtime.{Runtime, start_load}
use netperf.P2.PerfTest.{StreamWorkerRef}
use netperf.P2.Controller.{
  wait, Socket, TestController, broadcast_to_streams, total_needed_streams,
  create_streams_on_client,
}
use netperf.P2.Controller.Run.{act, act_on_state, collect}
use netperf.P2.Controller.Loop.{Choice, from_server, receive, turn, run, run_controller}
use netperf.P2.Controller.Loop.Receipt.{receive-set_state}
use netperf.P2.Controller.Gathering.{
  registered, at_state, registered-at_state, registered-keeps, run-loaded,
}
use netperf.P2.Controller.Joining.{Dialed, create_streams_on_client-registered}
use netperf.P2.Controller.Completes.{Completes, notices, HasJoined}
use netperf.P2.Controller.Finishes.{run_client-Completes}

module _ (env : Runtime) where
  open env use {transport, server_json, client_json}

  -- A round that waits for a message and handles it.
  run-turned :
      (fuel : ℕ) (choice : Choice (Socket env)) (rest : List (Choice (Socket env)))
      (old now : State) (c c₁ c' : TestController env)
      → c.test.state ≡ now
      → act_on_state env old c ≡ (ok wait, c₁)
      → receive env choice c₁ ≡ (ok tt, c')
      → run env (suc fuel) (choice ∷ rest) old c ≡ run env fuel rest now c'
  unfolding run
  run-turned fuel choice rest old now c c₁ c' s a e =
      ap (λ x. next x (turn env (run env fuel) c.test.state old (choice ∷ rest))) a
      ∙ ap (λ x. next x (λ _ c₂. run env fuel rest c.test.state c₂)) e
      ∙ ap (λ t. run env fuel rest t c') s

  -- Before its server's first message a client waits.
  act-test_start :
      (old : State) (c : TestController env)
      → c.test.role ≡ client
      → c.test.state ≡ test_start
      → act_on_state env old c ≡ (ok wait, c)
  unfolding act_on_state act
  act-test_start old c r s =
      ap (λ p. act env p c.test.state old c) r ∙ ap (λ t. act env client t old c) s

  act-create_streams :
      (k : String) (old : State) (c c' : TestController env)
      → c.test.role ≡ client
      → c.test.state ≡ create_streams k
      → create_streams_on_client env c ≡ (ok tt, c')
      → act_on_state env old c ≡ (ok wait, c')
  unfolding act_on_state act
  act-create_streams k old c c' r s e =
      ap (λ p. act env p c.test.state old c) r
      ∙ ap (λ t. act env client t old c) s
      ∙ ap (λ x. next x (λ _ c₂. (ok wait, c₂))) e

  module _ (d : Duplex transport) (is_server_json : IsJson ServerEnvelope server_json)
      (is_client_json : IsJson ClientEnvelope client_json)
      (called started told of_server of_client sent rest : List ℕ) (local remote : TestResults)
      (key : String)
      (called_text : server_json.to_string
          (ServerEnvelope.server_message (ServerMessage.set_state (create_streams key)))
        ≡ some called)
      (started_text : server_json.to_string
          (ServerEnvelope.server_message (ServerMessage.set_state running))
        ≡ some started)
      (told_text : server_json.to_string
          (ServerEnvelope.server_message (ServerMessage.set_state exchange_results))
        ≡ some told)
      (server_text : server_json.to_string
          (ServerEnvelope.server_message (ServerMessage.send_results remote))
        ≡ some of_server)
      (client_text : client_json.to_string
          (ClientEnvelope.client_message (ClientMessage.send_results local))
        ≡ some of_client)
      (called_fits : length called ≤ max_control_message)
      (started_fits : length started ≤ max_control_message)
      (told_fits : length told ≤ max_control_message)
      (server_fits : length of_server ≤ max_control_message)
      (client_fits : length of_client ≤ max_control_message) where
    -- A whole test on a client, from TestStart with no streams to the report: if the server's
    -- frames of CreateStreams, of Running, of ExchangeResults and of its results arrive on the
    -- control socket, the connections that the test needs can be made, each with a handshake that
    -- ends well, and between the second frame and the third the notices of any of the streams
    -- arrive in any order, each once and while no byte of a message has been read, the tasks of
    -- these having ended, with JSON lawful, all texts within the limit and the control socket open
    -- both ways, then with fuel for four rounds more than there are notices `run_controller` ends
    -- with ok: it reports the collected results of those streams and then the others, and those of
    -- the server, has written exactly the frame of its own results, and has left what follows
    -- unread.
    pub run_controller_client-Completes :
        (fuel : ℕ) (cookie address : String) (ss : List (Socket env))
        (ended going : List (ℕ × StreamWorkerRef env)) (c : TestController env)
        → 3 + length ended < fuel
        → c.test.role ≡ client
        → c.test.state ≡ test_start
        → c.test.cookie ≡ cookie
        → c.test.client_address ≡ some address
        → c.test.streams ≡ []
        → total_needed_streams env c.test ≡ length ss
        → Dialed env cookie address 0 ss
        → TakenOut ended
            (broadcast_to_streams env start_load (registered env ss c)).test.streams
            going
        → All (HasJoined env) ended
        → local ≡ record { streams = collect env (ended ++ going) c.stream_results }
        → Holds transport d sent
            (frame called ++ (frame started ++ (frame told ++ (frame of_server ++ rest))))
            c.test.control_socket
        → Completes env d (sent ++ frame of_client) rest local remote (
            run_controller env fuel
              (from_server ∷ from_server ∷ (notices env ended ++ from_server ∷ []))
              c)
    unfolding run_controller client_read_message broadcast_to_streams
    run_controller_client-Completes zero cookie address ss ended going c l r st ck ad n t v out j
          same h =
        absurd (omega arith)
    run_controller_client-Completes (suc zero) cookie address ss ended going c l r st ck ad n t v
          out j same h =
        absurd (omega arith)
    run_controller_client-Completes (suc (suc zero)) cookie address ss ended going c l r st ck ad n
          t v out j same h =
        absurd (omega arith)
    run_controller_client-Completes (suc (suc (suc f))) cookie address ss ended going c l r st ck ad
          n t v out j same h =
        let end = notices env ended ++ from_server ∷ [] in
        let (u₁, got₁, h₁) =
          read_lem transport d server_json is_server_json _ called sent _ c.test.control_socket h
            called_text called_fits in
        let c₁ = at_state env u₁ (create_streams key) c in
        let first =
          run-turned (suc (suc f)) from_server (from_server ∷ end) c.test.state test_start c c c₁ st
            (act-test_start c.test.state c r st)
            (receive-set_state env (create_streams key) u₁ c r (rw got₁ refl)) in
        let made = at_state env u₁ (create_streams key) (registered env ss c) in
        let joined =
          create_streams_on_client-registered env cookie address ss c₁ r ck ad n t v
          ∙ ap (λ x. (ok tt, x)) (registered-at_state env u₁ (create_streams key) ss c) in
        let (role, kept) = registered-keeps env ss c in
        let (u₂, got₂, h₂) =
          read_lem transport d server_json is_server_json _ started sent _ u₁ h₁ started_text
            started_fits in
        let c₂ = at_state env u₂ running (registered env ss c) in
        let second =
          run-turned (suc f) from_server end test_start (create_streams key) c₁ made c₂ refl
            (act-create_streams key test_start c₁ made r refl joined)
            (receive-set_state env running u₂ made (role ∙ r) (rw got₂ refl)) in
        let loaded = broadcast_to_streams env start_load c₂ in
        let y =
          run_client-Completes env d is_server_json is_client_json told of_server of_client sent
            rest local remote told_text server_text client_text told_fits server_fits client_fits
            (suc f) ended going loaded (omega arith) (role ∙ r) refl out j
            (same ∙ ap (λ q. record { streams = collect env (ended ++ going) q }) (sym kept)) h₂ in
        record {
          after = y.after;
          result =
              first ∙ second ∙ run-loaded env f end (create_streams key) c₂ refl refl ∙ y.result;
          reported = y.reported;
          all_sent = y.all_sent;
          left = y.left;
        }
