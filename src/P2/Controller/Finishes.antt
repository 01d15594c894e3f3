-- ===== src/P2/Controller/Finishes.antt =====
-- A client's test ends once its server asks for the results.
use netperf.Prelude.{
  ℕ, zero, suc, ◌≤◌, ◌<◌, ◌≡◌, refl, ap, ◌∙◌, some, List, [], ◌∷◌, ◌++◌, length, arith, All,
}
use netperf.Prelude.Dicts.{remove, TakenOut}
use netperf.Core.Stats.{TestResults}
use netperf.P2.Data.{client, max_control_message}
use netperf.P2.Control.{
  running, exchange_results, ClientMessage, ServerMessage, ClientEnvelope, ServerEnvelope,
}
use netperf.P2.Result.{ok, next}
use netperf.P2.Transport.{IsJson, Duplex}
use netperf.P2.NetUtils.{client_read_message}
use netperf.P2.NetUtils.RoundTrip.{frame}
use netperf.P2.NetUtils.Both.{Holds, read_lem}
use netperf.P2.Runtime.{Runtime}
use netperf.P2.PerfTest.{StreamWorkerRef}
use netperf.P2.Controller.{stream_terminated, Socket, TestController}
use netperf.P2.Controller.Run.{collect, act, act_on_state}
use netperf.P2.Controller.Run.Steps.{without_stream}
use netperf.P2.Controller.Run.ClientSteps.{process-client, drained, act-finish_client}
use netperf.P2.Controller.Loop.{Choice, internal, from_server, receive, turn, run}
use netperf.P2.Controller.Loop.Receipt.{receive-set_state, receive-terminated}
use netperf.P2.Controller.Results.{exchange_with_peer-client}
use netperf.P2.Controller.Completes.{Completes, notices, HasJoined, run-stop}

module _ (env : Runtime) where
  open env use {transport, server_json, client_json}

  -- A round of a client that runs: it waits, and handles what comes.
  run-wait :
      (fuel : ℕ) (choice : Choice (Socket env)) (rest : List (Choice (Socket env)))
      (c c' : TestController env)
      → c.test.role ≡ client
      → c.test.state ≡ running
      → receive env choice c ≡ (ok tt, c')
      → run env (suc fuel) (choice ∷ rest) running c ≡ run env fuel rest running c'
  unfolding run act_on_state act
  run-wait fuel choice rest c c' f g e =
      ap
        (λ r.
          next (act env r c.test.state running c)
            (turn env (run env fuel) c.test.state running (choice ∷ rest)))
        f
      ∙ ap
          (λ s.
            next (act env client s running c) (turn env (run env fuel) s running (choice ∷ rest)))
          g
      ∙ ap (λ x. next x (λ _ c₂. run env fuel rest running c₂)) e

  module _ (d : Duplex transport) (is_server_json : IsJson ServerEnvelope server_json)
      (is_client_json : IsJson ClientEnvelope client_json)
      (told of_server of_client sent rest : List ℕ) (local remote : TestResults)
      (told_text : server_json.to_string
          (ServerEnvelope.server_message (ServerMessage.set_state exchange_results))
        ≡ some told)
      (server_text : server_json.to_string
          (ServerEnvelope.server_message (ServerMessage.send_results remote))
        ≡ some of_server)
      (client_text : client_json.to_string
          (ClientEnvelope.client_message (ClientMessage.send_results local))
        ≡ some of_client)
      (told_fits : length told ≤ max_control_message)
      (server_fits : length of_server ≤ max_control_message)
      (client_fits : length of_client ≤ max_control_message) where
    -- The server's call for the results, and the exchange behind it.
    run-asked :
        (fuel : ℕ) (c : TestController env)
        → c.test.role ≡ client
        → c.test.state ≡ running
        → local ≡ record { streams = collect env c.test.streams c.stream_results }
        → Holds transport d sent (frame told ++ (frame of_server ++ rest)) c.test.control_socket
        → Completes env d
            (sent ++ frame of_client)
            rest
            local
            remote
            (run env (suc (suc fuel)) (from_server ∷ []) running c)
    unfolding client_read_message
    run-asked fuel c f g same h =
        let (s, got, h₁) =
          read_lem transport d server_json is_server_json _ told sent _ c.test.control_socket h
            told_text told_fits in
        let c₁ = record c {
          test = record c.test { control_socket = s; state = exchange_results };
        } in
        let x =
          exchange_with_peer-client env d is_server_json is_client_json of_client of_server rest
            local remote (drained env local c₁) client_fits server_fits client_text server_text
            h₁.reading h₁.writing f h₁.to_come in
        record {
          after = record x.after { report = some (local, remote) };
          result =
              run-wait (suc fuel) from_server [] c c₁ f g
                (receive-set_state env exchange_results s c f (rw got refl))
              ∙ run-stop env fuel [] running c₁ _
                  (act-finish_client env running c₁ x.after local remote refl f same x.result);
          reported = refl;
          all_sent = x.sent ∙ ap (λ l. l ++ frame of_client) h₁.sent_so_far;
          left = x.left;
        }

    -- On a running client, if notices of any of its streams arrive in any order, each once, whose
    -- tasks have ended, and each while no byte of a message has been read, and then the server's
    -- frame of ExchangeResults and that of its results, with JSON lawful, the texts within the
    -- limit and the control socket open both ways, then with fuel for two rounds more than there
    -- are notices the loop ends with ok: it reports the collected results of those streams and
    -- then the others, and those of the server, has written exactly the frame of its own results,
    -- and has left what follows unread.
    pub run_client-Completes :
        (fuel : ℕ) (ended going : List (ℕ × StreamWorkerRef env)) (c : TestController env)
        → suc (length ended) < fuel
        → c.test.role ≡ client
        → c.test.state ≡ running
        → TakenOut ended c.test.streams going
        → All (HasJoined env) ended
        → local ≡ record { streams = collect env (ended ++ going) c.stream_results }
        → Holds transport d sent (frame told ++ (frame of_server ++ rest)) c.test.control_socket
        → Completes env d
            (sent ++ frame of_client)
            rest
            local
            remote
            (run env fuel (notices env ended ++ from_server ∷ []) running c)
    unfolding collect
    run_client-Completes zero ended going c l f g e j same h = absurd (omega arith)
    run_client-Completes (suc zero) ended going c l f g e j same h = absurd (omega arith)
    run_client-Completes (suc (suc fuel)) [] going c l f g e j same h =
        run-asked fuel c f g (rw (← e) at same) h
    run_client-Completes (suc (suc fuel)) ((id, r) ∷ ended) going c l f g e j same h =
        let left = remove id c.test.streams in
        let stepped = process-client env id r left c f e.0 refl j.0 in
        let others = notices env ended ++ from_server ∷ [] in
        let rest_run =
          run_client-Completes (suc fuel) ended going (without_stream env id r left c) (omega arith)
            f g e.1 j.1 same h in
        let round =
          run-wait (suc fuel) (internal (some (stream_terminated id)) 0) others c _ f g
            (receive-terminated env id c f ∙ stepped) in
        record {
          after = rest_run.after;
          result = round ∙ rest_run.result;
          reported = rest_run.reported;
          all_sent = rest_run.all_sent;
          left = rest_run.left;
        }
