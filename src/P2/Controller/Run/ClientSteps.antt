-- ===== src/P2/Controller/Run/ClientSteps.antt =====
-- The handlers at the end of a test on a client.
use netperf.Prelude.{ℕ, ◌≡◌, refl, ap, sym, ◌∙◌, some, List, [], ◌∷◌, map, arith}
use netperf.Prelude.Dicts.{get, remove}
use netperf.Core.Stats.{StreamStats, TestResults}
use netperf.P2.Data.{client}
use netperf.P2.Control.{State, exchange_results}
use netperf.P2.Result.{Result, ok, next}
use netperf.P2.Runtime.{Runtime, WorkerMessage, terminate}
use netperf.P2.PerfTest.{StreamWorkerRef}
use netperf.P2.Controller.{TestController, stop, Flow, broadcast_to_streams, tell}
use netperf.P2.Controller.Run.{
  collect, keep_result, collect_test_result, exchange_with_peer, process_stream_terminated, act,
  act_on_state, finish, finish_if_idle,
}
use netperf.P2.Controller.Run.Steps.{IsJoined, without_stream, terminated_lem}

module _ (env : Runtime) where
  -- On a client the end of a stream is noted, and nothing else.
  pub process-client :
      (id : ℕ) (r : StreamWorkerRef env) (l : List (ℕ × StreamWorkerRef env))
      (c : TestController env)
      → c.test.role ≡ client
      → get id c.test.streams ≡ some r
      → remove id c.test.streams ≡ l
      → IsJoined r.join_handle
      → process_stream_terminated env id c ≡ (ok tt, without_stream env id r l c)
  unfolding finish_if_idle
  process-client id r l c f e g h = terminated_lem env id r l c e g h ∙ ground arith

  collect-tell :
      (m : WorkerMessage) (l : List (ℕ × StreamWorkerRef env)) (results : List (ℕ × StreamStats))
      → collect env (map (tell env m) l) results ≡ collect env l results
  unfolding collect tell
  collect-tell m [] results = refl
  collect-tell m ((id, r) ∷ l) results = collect-tell m l (keep_result env id r.join_handle results)

  -- The controller behind the collection.
  abbrev pub drained : TestResults → TestController env → TestController env
  drained local c = record c {
    test = record c.test { streams = [] };
    stream_results = local.streams;
  }

  finish_lem :
      (c : TestController env) (local : TestResults) (x : Result TestResults × TestController env)
      → local ≡ record { streams = collect env c.test.streams c.stream_results }
      → exchange_with_peer env local (drained local c) ≡ x
      → finish env c ≡ next x (λ remote c₂. (ok stop, record c₂ { report = some (local, remote) }))
  unfolding finish broadcast_to_streams collect_test_result
  finish_lem c local x e h =
      ap (λ l. next (exchange_with_peer env l (drained l c)) (k l)) same
      ∙ ap (λ y. next y (k local)) h
    where
      k : TestResults → TestResults → TestController env → Result Flow × TestController env
      k l remote c₂ = (ok stop, record c₂ { report = some (l, remote) })

      same :
          record {
            streams = collect env (map (tell env terminate) c.test.streams) c.stream_results;
          }
          ≡ local
      same =
          ap (λ s. record { streams = s }) (collect-tell terminate c.test.streams c.stream_results)
          ∙ sym e

  -- The last round of a client.
  pub act-finish_client :
      (old : State) (c c' : TestController env) (local remote : TestResults)
      → c.test.state ≡ exchange_results
      → c.test.role ≡ client
      → local ≡ record { streams = collect env c.test.streams c.stream_results }
      → exchange_with_peer env local (drained local c) ≡ (ok remote, c')
      → act_on_state env old c ≡ (ok stop, record c' { report = some (local, remote) })
  unfolding act_on_state act
  act-finish_client old c c' local remote f g e x =
      ap (λ r. act env r c.test.state old c) g
      ∙ ap (λ s. act env client s old c) f
      ∙ finish_lem c local _ e x
