-- ===== src/P2/Controller/Run.antt =====
-- The message handlers and the loop of crates/netperf-p2/src/controller.rs.
pub mod Steps
pub mod ClientSteps
pub mod Stages
pub mod Rounds
pub mod Validity
use netperf.Prelude.{◌&&◌, ℕ, Option, none, some, List, [], ◌∷◌, if◌then◌else◌}
use netperf.Prelude.Dicts.{get, insert, remove}
use netperf.Core.Stats.{StreamStats, TestResults}
use netperf.P2.Data.{Role, server, client}
use netperf.P2.Control.{
  State, test_start, create_streams, running, exchange_results, ClientMessage, ServerMessage,
}
use netperf.P2.Result.{
  ignore, Result, ok, err, panic, diverged, message, context, with_context, next,
}
use netperf.P2.NetUtils.{
  client_send_message, server_send_message, client_read_message, server_read_message,
}
use netperf.P2.Runtime.{Runtime, Join, joined, join_error, late, start_load, terminate}
use netperf.P2.PerfTest.{StreamWorkerRef, set_state}
use netperf.P2.Controller.{
  ControllerMessage, create_stream, stream_terminated, Flow, again, wait, stop, is_server,
  is_running, is_empty, Socket, TestController, on_test, on_control, accept_stream,
  create_streams_on_client, broadcast_to_streams,
}

module _ (env : Runtime) where
  open env use {transport, server_json, client_json}

  -- `timeout(5 s, join_handle)`: only a worker that ended well has a result.
  unfoldable pub keep_result : ℕ → Join → List (ℕ × StreamStats) → List (ℕ × StreamStats)
  keep_result id (joined (ok result)) results = insert id result results
  keep_result id _ results = results

  unfoldable pub collect :
      List (ℕ × StreamWorkerRef env) → List (ℕ × StreamStats) → List (ℕ × StreamStats)
  unfolding keep_result
  collect [] results = results
  collect ((id, worker_ref) ∷ refs) results =
      collect refs (keep_result id worker_ref.join_handle results)

  -- The streams are drained, and the results stay with the controller.
  unfoldable pub collect_test_result : TestController env → TestResults × TestController env
  unfolding collect
  collect_test_result c =
      let results = collect c.test.streams c.stream_results in
      (
        record { streams = results },
        record c { test = record c.test { streams = [] }; stream_results = results },
      )

  invalid : {A : Type 0} → Result A
  invalid = err (message "Invalid protocol message was sent from the server")

  results_of_server : ServerMessage → Result TestResults
  unfolding invalid
  results_of_server (ServerMessage.send_results results) = ok results
  results_of_server _ = invalid

  results_of_client : ClientMessage → Result TestResults
  unfolding invalid
  results_of_client (ClientMessage.send_results results) = ok results
  results_of_client _ = invalid

  -- The client sends first; the server answers even to a message that it refuses.
  unfoldable pub exchange_as :
      Role → TestResults → TestController env → Result TestResults × TestController env
  unfolding results_of_server results_of_client
  exchange_as client local c =
      next
        (on_control env
          (client_send_message transport client_json (ClientMessage.send_results local)) c)
        (λ _ c₁.
          next (on_control env (client_read_message transport server_json) c₁)
            (λ m c₂. (results_of_server m, c₂)))
  exchange_as server local c =
      next (on_control env (server_read_message transport client_json) c) (λ m c₁.
        next
          (on_control env
            (server_send_message transport server_json (ServerMessage.send_results local)) c₁)
          (λ _ c₂. (results_of_client m, c₂)))

  unfoldable pub exchange_with_peer :
      TestResults → TestController env → Result TestResults × TestController env
  unfolding exchange_as
  exchange_with_peer local c = exchange_as c.test.role local c

  -- `join_handle.await.with_context(..)?`, with no timeout.
  await : ℕ → Join → Result (Result StreamStats)
  await id (joined result) = ok result
  await id join_error = err (context "Couldn't join an internal task for stream" (message "join"))
  await id late = diverged

  store : ℕ → Result StreamStats → TestController env → TestController env
  store id (ok result) c = record c { stream_results = insert id result c.stream_results }
  store id _ c = c

  -- A stream that is not registered any more is no error.
  join_worker :
      ℕ → Option (StreamWorkerRef env) → TestController env → Result (Unit {0}) × TestController env
  unfolding await store
  join_worker id none c = (ok tt, c)
  join_worker id (some worker_ref) c =
      next (await id worker_ref.join_handle, c) (λ result c'. (ok tt, store id result c'))

  tell_exchange : TestController env → Result (Unit {0}) × TestController env
  tell_exchange c =
      let told = on_test env (set_state env exchange_results) c in (ignore told.0, told.1)

  -- `let _ = set_state(..)`: that the client could not be told is ignored.
  pub finish_if_idle : TestController env → Result (Unit {0}) × TestController env
  unfolding tell_exchange
  finish_if_idle c =
      if is_empty c.test.streams && is_server c.test.role then tell_exchange c else (ok tt, c)

  unfoldable pub process_stream_terminated :
      ℕ → TestController env → Result (Unit {0}) × TestController env
  unfolding join_worker finish_if_idle
  process_stream_terminated id c =
      let c₁ = record c { test = record c.test { streams = remove id c.test.streams } } in
      next (join_worker id (get id c.test.streams) c₁) (λ _ c₂. finish_if_idle c₂)

  unfoldable pub process_internal_message :
      Option (ControllerMessage (Socket env))
      → TestController env
      → Result (Unit {0}) × TestController env
  unfolding process_stream_terminated
  process_internal_message none c = (panic, c)
  process_internal_message (some (create_stream stream)) c = accept_stream env stream c
  process_internal_message (some (stream_terminated id)) c = process_stream_terminated id c

  act_on_server_message :
      ServerMessage → TestController env → Result (Unit {0}) × TestController env
  act_on_server_message (ServerMessage.set_state state) c = on_test env (set_state env state) c
  act_on_server_message _ c = (ok tt, c)

  unfoldable pub process_server_message :
      Result ServerMessage → TestController env → Result (Unit {0}) × TestController env
  unfolding act_on_server_message
  process_server_message received c =
      next (with_context "Server terminated!" received, c) (λ m c'. act_on_server_message m c')

  -- `broadcast(Terminate)`, then the results of both sides.
  pub finish : TestController env → Result Flow × TestController env
  unfolding collect_test_result exchange_with_peer
  finish c =
      let (local, c₁) = collect_test_result (broadcast_to_streams env terminate c) in
      next (exchange_with_peer local c₁)
        (λ remote c₂. (ok stop, record c₂ { report = some (local, remote) }))

  -- The `match state` at the head of the loop.
  unfoldable pub act :
      Role → State → (old : State) → TestController env → Result Flow × TestController env
  unfolding finish
  act server test_start old c =
      next (on_test env (set_state env (create_streams c.test.cookie)) c) (λ _ c'. (ok again, c'))
  act client (create_streams _) old c =
      next (create_streams_on_client env c) (λ _ c'. (ok wait, c'))
  act _ running old c =
      (ok wait, if is_running old then c else broadcast_to_streams env start_load c)
  act _ exchange_results old c = finish c
  act _ _ old c = (ok wait, c)

  unfoldable pub act_on_state : State → TestController env → Result Flow × TestController env
  unfolding act
  act_on_state old c = act c.test.role c.test.state old c
