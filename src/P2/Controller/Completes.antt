-- ===== src/P2/Controller/Completes.antt =====
-- A server's test ends once each stream was reported as terminated.
use netperf.Prelude.{
  ℕ, zero, suc, ◌≤◌, ◌<◌, ◌≡◌, ◌≢◌, refl, sym, ap, subst, ◌∙◌, some, false, List, [], ◌∷◌, ◌++◌,
  length, arith, All,
}
use netperf.Prelude.Dicts.{get, remove, Unique, TakenOut, get-TakenOut}
use netperf.Core.Stats.{TestResults}
use netperf.P2.Data.{server, max_control_message}
use netperf.P2.Control.{
  State, running, exchange_results, ClientMessage, ServerMessage, ClientEnvelope, ServerEnvelope,
}
use netperf.P2.Result.{Result, ok, next}
use netperf.P2.Transport.{IsJson, Duplex}
use netperf.P2.NetUtils.{server_send_message}
use netperf.P2.NetUtils.RoundTrip.{frame}
use netperf.P2.NetUtils.Both.{Holds, send_lem}
use netperf.P2.Runtime.{Runtime}
use netperf.P2.PerfTest.{StreamWorkerRef}
use netperf.P2.PerfTest.SetState.{set_state_sent}
use netperf.P2.Controller.{stream_terminated, stop, is_empty, Socket, TestController}
use netperf.P2.Controller.Run.{
  keep_result, collect, exchange_with_peer, process_internal_message, process_stream_terminated,
  act, act_on_state,
}
use netperf.P2.Controller.Run.Steps.{
  IsJoined, without_stream, process-more, process-last, act-finish,
}
use netperf.P2.Controller.Loop.{Choice, internal, receive, turn, run}
use netperf.P2.Controller.Results.{exchange_with_peer-server}

get-is_empty {ℓ} :
    {V : Type ℓ} (k : ℕ) (v : V) (m : List (ℕ × V)) → get k m ≡ some v → is_empty m ≡ false
get-is_empty k v [] e = cc
get-is_empty k v (x ∷ m) e = refl

module _ (env : Runtime) where
  open env use {transport, server_json, client_json}

  -- The notices of the streams, one after the other.
  abbrev pub notices : List (ℕ × StreamWorkerRef env) → List (Choice (Socket env))
  notices [] = []
  notices ((id, r) ∷ l) = internal (some (stream_terminated id)) 0 ∷ notices l

  abbrev pub HasJoined : ℕ × StreamWorkerRef env → Type 0
  HasJoined (id, r) = IsJoined r.join_handle

  receive-notice :
      (id : ℕ) (c : TestController env)
      → c.test.role ≡ server
      → receive env (internal (some (stream_terminated id)) 0) c
        ≡ process_stream_terminated env id c
  unfolding receive process_internal_message
  receive-notice id c f = ground arith

  -- A round that waits and then handles the notice of one stream.
  run-notice :
      (fuel id : ℕ) (rest : List (Choice (Socket env))) (c : TestController env)
      (c' : TestController env)
      → c.test.role ≡ server
      → c.test.state ≡ running
      → process_stream_terminated env id c ≡ (ok tt, c')
      → run env (suc fuel) (internal (some (stream_terminated id)) 0 ∷ rest) running c
        ≡ run env fuel rest running c'
  unfolding run act_on_state act receive process_internal_message
  run-notice fuel id rest c c' f g e =
      ap
        (λ r.
          next (act env r c.test.state running c)
            (turn env (run env fuel) c.test.state running schedule))
        f
      ∙ ap (λ s. next (act env server s running c) (turn env (run env fuel) s running schedule)) g
      ∙ ap (λ x. next x (λ _ c₂. run env fuel rest running c₂)) (receive-notice id c f ∙ e)
    where
      schedule : List (Choice (Socket env))
      schedule = internal (some (stream_terminated id)) 0 ∷ rest

  -- What the test has come to: both sides' results are reported, the client was told, and the
  -- socket is read up to `pending`.
  pub record Completes (d : Duplex transport) (sent pending : List ℕ) (local remote : TestResults)
      (x : Result (Unit {0}) × TestController env) : Type 0 where
    pub after : TestController env
    pub result : x ≡ (ok tt, after)
    pub reported : after.report ≡ some (local, remote)
    pub all_sent : d.writes.sent after.test.control_socket ≡ sent
    pub left : d.reads.pending after.test.control_socket ≡ pending

  pub run-stop :
      (fuel : ℕ) (schedule : List (Choice (Socket env))) (old : State) (c c' : TestController env)
      → act_on_state env old c ≡ (ok stop, c')
      → run env (suc fuel) schedule old c ≡ (ok tt, c')
  unfolding run
  run-stop fuel schedule old c c' e =
      ap (λ x. next x (turn env (run env fuel) c.test.state old schedule)) e

  -- The last notice and the exchange behind it.
  module _ (d : Duplex transport) (is_server_json : IsJson ServerEnvelope server_json)
      (is_client_json : IsJson ClientEnvelope client_json)
      (told of_server of_client sent rest : List ℕ) (local remote : TestResults)
      (told_text : server_json.to_string
          (ServerEnvelope.server_message (ServerMessage.set_state exchange_results))
        ≡ some told)
      (server_text : server_json.to_string
          (ServerEnvelope.server_message (ServerMessage.send_results local))
        ≡ some of_server)
      (client_text : client_json.to_string
          (ClientEnvelope.client_message (ClientMessage.send_results remote))
        ≡ some of_client)
      (told_fits : length told ≤ max_control_message)
      (server_fits : length of_server ≤ max_control_message)
      (client_fits : length of_client ≤ max_control_message) where
    run-last :
        (fuel id : ℕ) (r : StreamWorkerRef env) (c : TestController env)
        → c.test.role ≡ server
        → c.test.state ≡ running
        → get id c.test.streams ≡ some r
        → remove id c.test.streams ≡ []
        → IsJoined r.join_handle
        → local ≡ record { streams = keep_result env id r.join_handle c.stream_results }
        → Holds transport d sent (frame of_client ++ rest) c.test.control_socket
        → Completes d
            (sent ++ frame told ++ frame of_server)
            rest
            local
            remote
            (run env (suc (suc fuel)) (notices ((id, r) ∷ [])) running c)
    unfolding server_send_message
    run-last fuel id r c f g e u j same h =
        let c₁ = without_stream env id r [] c in
        let (s, done, h₁) =
          send_lem transport d server_json _ told sent _ c.test.control_socket h told_text
            (omega arith) in
        let set = set_state_sent env exchange_results c₁.test s f done in
        let p = record c₁.test { control_socket = s; state = exchange_results } in
        let c₂ = record c₁ { test = p } in
        let x =
          exchange_with_peer-server env d is_server_json is_client_json of_client of_server rest
            remote local c₂ client_fits server_fits client_text server_text h₁.reading h₁.writing f
            h₁.to_come in
        let exchanged =
          subst (λ l. exchange_with_peer env l c₂ ≡ (ok remote, x.after)) same x.result in
        let last = process-last env id r c p f e u j set in
        record {
          after = record x.after { report = some (record { streams = c₂.stream_results }, remote) };
          result =
              run-notice (suc fuel) id [] c c₂ f g last
              ∙ run-stop fuel [] running c₂ _
                  (act-finish env running c₂ x.after remote refl refl f exchanged);
          reported = ap (λ l. some (l, remote)) (sym same);
          all_sent = x.sent ∙ ap (λ l. l ++ frame of_server) h₁.sent_so_far;
          left = x.left;
        }

    pub run-taken :
        (fuel : ℕ) (order : List (ℕ × StreamWorkerRef env)) (c : TestController env)
        → length order < fuel
        → order ≢ []
        → c.test.role ≡ server
        → c.test.state ≡ running
        → TakenOut order c.test.streams []
        → All HasJoined order
        → local ≡ record { streams = collect env order c.stream_results }
        → Holds transport d sent (frame of_client ++ rest) c.test.control_socket
        → Completes d
            (sent ++ frame told ++ frame of_server)
            rest
            local
            remote
            (run env fuel (notices order) running c)
    unfolding collect
    run-taken zero order c l n f g e j same h = absurd (omega arith)
    run-taken (suc fuel) [] c l n f g e j same h = absurd (n refl)
    run-taken (suc zero) ((id, r) ∷ order) c l n f g e j same h = absurd (omega arith)
    run-taken (suc (suc fuel)) ((id, r) ∷ []) c l n f g e j same h =
        run-last fuel id r c f g e.0 e.1 j.0 same h
    run-taken (suc (suc fuel)) ((id, r) ∷ ((k, x) ∷ order)) c l n f g e j same h =
        let left = remove id c.test.streams in
        let more = get-is_empty k x left e.1.0 in
        let stepped = process-more env id r left c e.0 refl more j.0 in
        let rest_run =
          run-taken (suc fuel) ((k, x) ∷ order) (without_stream env id r left c) (omega arith)
            (λ q. cc) f g e.1 j.1 same h in
        let round = run-notice (suc fuel) id (notices ((k, x) ∷ order)) c _ f g stepped in
        record {
          after = rest_run.after;
          result = round ∙ rest_run.result;
          reported = rest_run.reported;
          all_sent = rest_run.all_sent;
          left = rest_run.left;
        }

    -- On a running server, for any order of its registered streams, each of them once, whose tasks
    -- have all ended, of which there is one at least: if the notices of the streams arrive in that
    -- order, the texts are within the limit, JSON is lawful, the control socket is open both ways
    -- and the frame of the client's results arrives, then with more fuel than there are streams
    -- the loop ends with ok: it reports the results of the streams, collected in that order, and
    -- those of the client, has written exactly the frame of ExchangeResults and the frame of its
    -- own results, and has left what follows unread.
    pub run-Completes :
        (fuel : ℕ) (order : List (ℕ × StreamWorkerRef env)) (c : TestController env)
        → length order < fuel
        → order ≢ []
        → c.test.role ≡ server
        → c.test.state ≡ running
        → Unique order
        → Unique c.test.streams
        → ((k : ℕ) → get k order ≡ get k c.test.streams)
        → All HasJoined order
        → local ≡ record { streams = collect env order c.stream_results }
        → Holds transport d sent (frame of_client ++ rest) c.test.control_socket
        → Completes d
            (sent ++ frame told ++ frame of_server)
            rest
            local
            remote
            (run env fuel (notices order) running c)
    run-Completes fuel order c l n f g u w e j same h =
        run-taken fuel order c l n f g (get-TakenOut order c.test.streams u w e) j same h
