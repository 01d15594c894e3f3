-- ===== src/P2/Controller/Whole.antt =====
-- A whole test on a server, from its first round on.
use netperf.Prelude.{
  ℕ, zero, suc, ◌+◌, ◌-◌, ◌≤◌, ◌<◌, ◌≡◌, ◌≢◌, refl, ap, sym, ◌∙◌, subst, String, some, List, [],
  ◌∷◌, ◌++◌, length, arith, All,
}
use netperf.Prelude.Dicts.{get, Unique, Numbered, get-TakenOut}
use netperf.Core.Stats.{TestResults}
use netperf.P2.Data.{server, max_control_message}
use netperf.P2.Control.{
  test_start, create_streams, running, exchange_results, ClientMessage, ServerMessage,
  ClientEnvelope, ServerEnvelope,
}
use netperf.P2.Transport.{IsJson, Duplex}
use netperf.P2.NetUtils.{server_send_message}
use netperf.P2.NetUtils.RoundTrip.{frame}
use netperf.P2.NetUtils.Both.{Holds, send_lem}
use netperf.P2.Runtime.{Runtime, start_load}
use netperf.P2.PerfTest.{StreamWorkerRef}
use netperf.P2.PerfTest.SetState.{set_state_sent}
use netperf.P2.Controller.{Socket, TestController, broadcast_to_streams, total_needed_streams}
use netperf.P2.Controller.Registry.{IsReady}
use netperf.P2.Controller.Run.{collect}
use netperf.P2.Controller.Loop.{run, run_controller}
use netperf.P2.Controller.Completes.{Completes, notices, HasJoined, run-taken}
use netperf.P2.Controller.Gathering.{
  connections, registered, at_state, registered-at_state, registered-keeps, registered-Numbered,
  broadcast-Numbered, Numbered-Unique, run-loaded, run-begun, gathered,
}

module _ (env : Runtime) where
  open env use {transport, server_json, client_json}

  module _ (d : Duplex transport) (is_server_json : IsJson ServerEnvelope server_json)
      (is_client_json : IsJson ClientEnvelope client_json)
      (called started told of_server of_client sent rest : List ℕ) (local remote : TestResults)
      (cookie : String)
      (called_text : server_json.to_string
          (ServerEnvelope.server_message (ServerMessage.set_state (create_streams cookie)))
        ≡ some called)
      (started_text : server_json.to_string
          (ServerEnvelope.server_message (ServerMessage.set_state running))
        ≡ some started)
      (told_text : server_json.to_string
          (ServerEnvelope.server_message (ServerMessage.set_state exchange_results))
        ≡ some told)
      (server_text : server_json.to_string
          (ServerEnvelope.server_message (ServerMessage.send_results local))
        ≡ some of_server)
      (client_text : client_json.to_string
          (ClientEnvelope.client_message (ClientMessage.send_results remote))
        ≡ some of_client)
      (called_fits : length called ≤ max_control_message)
      (started_fits : length started ≤ max_control_message)
      (told_fits : length told ≤ max_control_message)
      (server_fits : length of_server ≤ max_control_message)
      (client_fits : length of_client ≤ max_control_message) where
    -- A whole test on a server, from TestStart with no streams to the report: if as many
    -- connections reach the controller as the test needs, one at least, and then the notices of
    -- all their streams in any order, the tasks of the streams having ended by then, with JSON
    -- lawful, all texts within the limit, the control socket open both ways and the frame of the
    -- client's results arriving on it, then with fuel for two rounds more than there are
    -- connections and notices `run_controller` ends with ok: it reports the results of the
    -- streams, collected in the order of the notices, and those of the client, has written exactly
    -- the frames of CreateStreams with the cookie of the test, of Running, of ExchangeResults and
    -- of its own results, in this order, and has left what follows unread.
    pub run_controller-Completes :
        (fuel : ℕ) (s : Socket env) (ss : List (Socket env))
        (order : List (ℕ × StreamWorkerRef env)) (c : TestController env)
        → suc (suc (length ss) + length order) < fuel
        → c.test.role ≡ server
        → c.test.state ≡ test_start
        → c.test.cookie ≡ cookie
        → c.test.streams ≡ []
        → total_needed_streams env c.test ≡ suc (length ss)
        → order ≢ []
        → Unique order
        → ((k : ℕ)
            → get k order
              ≡ get k
                  (broadcast_to_streams env start_load (registered env (s ∷ ss) c)).test.streams)
        → All (HasJoined env) order
        → local ≡ record { streams = collect env order c.stream_results }
        → Holds transport d sent (frame of_client ++ rest) c.test.control_socket
        → Completes env d
            (((sent ++ frame called) ++ frame started) ++ frame told ++ frame of_server)
            rest
            local
            remote
            (run_controller env fuel (connections env (s ∷ ss) ++ notices env order) c)
    unfolding run_controller server_send_message broadcast_to_streams
    run_controller-Completes zero s ss order c l r st ck n t ne u en j same h = absurd (omega arith)
    run_controller-Completes (suc fuel) s ss order c l r st ck n t ne u en j same h =
        let key : server_json.to_string (
              ServerEnvelope.server_message
                (ServerMessage.set_state (create_streams c.test.cookie)))
            ≡ some called =
          rw ck called_text in
        let (u₀, done, h₀) =
          send_lem transport d server_json _ called sent (frame of_client ++ rest)
            c.test.control_socket h key (omega arith) in
        let set = set_state_sent env (create_streams c.test.cookie) c.test u₀ r done in
        let c₀ = at_state env u₀ (create_streams c.test.cookie) c in
        let f = fuel - suc (suc (length ss)) in
        let ready : IsReady env c₀ = record {
          role = r;
          numbered = subst (Numbered 0) (sym n) tt;
        } in
        let g =
          gathered env d c.test.cookie started (sent ++ frame called) (frame of_client ++ rest)
            started_text started_fits fuel (suc f) s ss (notices env order) c.test.state c₀
            (omega arith) ready refl (omega (arith, t, ap length n)) h₀ in
        let c₁ = at_state env g.socket running (registered env (s ∷ ss) c) in
        let loaded = broadcast_to_streams env start_load c₁ in
        let (role, kept) = registered-keeps env (s ∷ ss) c in
        let distinct = Numbered-Unique 0 loaded.test.streams (
          broadcast-Numbered env start_load c₁ (
            registered-Numbered env (s ∷ ss) c (record { role = r; numbered = ready.numbered }))) in
        let y =
          run-taken env d is_server_json is_client_json told of_server of_client
            ((sent ++ frame called) ++ frame started) rest local remote told_text server_text
            client_text told_fits server_fits client_fits (suc f) order loaded (omega arith) ne
            (role ∙ r) refl (get-TakenOut order loaded.test.streams u distinct en) j
            (same ∙ ap (λ q. record { streams = collect env order q }) (sym kept)) g.holds in
        record {
          after = y.after;
          result =
              run-begun env fuel (connections env (s ∷ ss) ++ notices env order) c.test.state u₀ c r
                st set
              ∙ g.result
              ∙ ap
                  (λ x.
                    run env (suc f) (notices env order) (create_streams c.test.cookie)
                      (at_state env g.socket running x))
                  (registered-at_state env u₀ (create_streams c.test.cookie) (s ∷ ss) c)
              ∙ run-loaded env f (notices env order) (create_streams c.test.cookie) c₁ refl refl
              ∙ y.result;
          reported = y.reported;
          all_sent = y.all_sent;
          left = y.left;
        }
