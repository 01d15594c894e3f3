-- ===== src/P2/Controller/Run/Steps.antt =====
-- The handlers at the end of a test on a server.
use netperf.Prelude.{ℕ, ◌≡◌, refl, sym, ap, ◌∙◌, some, false, List, [], arith}
use netperf.Prelude.Dicts.{get, remove}
use netperf.Core.Stats.{TestResults}
use netperf.P2.Data.{server}
use netperf.P2.Control.{State, exchange_results}
use netperf.P2.Result.{Result, ok, err, panic, diverged, next}
use netperf.P2.Runtime.{Runtime, Join, joined, join_error, late}
use netperf.P2.PerfTest.{PerfTest, StreamWorkerRef, set_state}
use netperf.P2.Controller.{TestController, stop, Flow, broadcast_to_streams, is_empty}
use netperf.P2.Controller.Run.{
  keep_result, collect_test_result, exchange_with_peer, process_stream_terminated, act,
  act_on_state, finish, join_worker, finish_if_idle,
}

-- A task that has ended, whatever its worker returned.
abbrev pub IsJoined : Join → Type 0
IsJoined (joined r) = Unit
IsJoined _ = ⊥

module _ (env : Runtime) where
  -- The controller without a stream, whose result is kept; `l` are the others.
  abbrev pub without_stream :
      ℕ
      → StreamWorkerRef env
      → List (ℕ × StreamWorkerRef env)
      → TestController env
      → TestController env
  without_stream id r l c = record c {
    test = record c.test { streams = l };
    stream_results = keep_result env id r.join_handle c.stream_results;
  }

  join_worker_lem :
      (id : ℕ) (r : StreamWorkerRef env) (j : Join) (l : List (ℕ × StreamWorkerRef env))
      (c : TestController env)
      → r.join_handle ≡ j
      → IsJoined j
      → join_worker env id (some r) (record c { test = record c.test { streams = l } })
        ≡ (ok tt, without_stream id r l c)
  unfolding join_worker keep_result
  join_worker_lem id r (joined (ok stats)) l c e h = ground arith
  join_worker_lem id r (joined (err x)) l c e h = ground arith
  join_worker_lem id r (joined panic) l c e h = ground arith
  join_worker_lem id r (joined diverged) l c e h = ground arith
  join_worker_lem id r join_error l c e h = absurd h
  join_worker_lem id r late l c e h = absurd h

  pub terminated_lem :
      (id : ℕ) (r : StreamWorkerRef env) (l : List (ℕ × StreamWorkerRef env))
      (c : TestController env)
      → get id c.test.streams ≡ some r
      → remove id c.test.streams ≡ l
      → IsJoined r.join_handle
      → process_stream_terminated env id c ≡ finish_if_idle env (without_stream id r l c)
  unfolding process_stream_terminated
  terminated_lem id r l c e f h =
      ap (λ o. next (join_worker env id o (at (remove id c.test.streams))) k) e
      ∙ ap (λ s. next (join_worker env id (some r) (at s)) k) f
      ∙ ap (λ x. next x k) (join_worker_lem id r r.join_handle l c refl h)
    where
      k : Unit {0} → TestController env → Result (Unit {0}) × TestController env
      k _ c₂ = finish_if_idle env c₂

      at : List (ℕ × StreamWorkerRef env) → TestController env
      at s = record c { test = record c.test { streams = s } }

  pub process-more :
      (id : ℕ) (r : StreamWorkerRef env) (l : List (ℕ × StreamWorkerRef env))
      (c : TestController env)
      → get id c.test.streams ≡ some r
      → remove id c.test.streams ≡ l
      → is_empty l ≡ false
      → IsJoined r.join_handle
      → process_stream_terminated env id c ≡ (ok tt, without_stream id r l c)
  unfolding finish_if_idle
  process-more id r l c e f n h = terminated_lem id r l c e f h ∙ rw n refl

  pub process-last :
      (id : ℕ) (r : StreamWorkerRef env) (c : TestController env) (p : PerfTest env)
      → c.test.role ≡ server
      → get id c.test.streams ≡ some r
      → remove id c.test.streams ≡ []
      → IsJoined r.join_handle
      → set_state env exchange_results (without_stream id r [] c).test ≡ (ok tt, p)
      → process_stream_terminated env id c ≡ (ok tt, record (without_stream id r [] c) { test = p })
  unfolding finish_if_idle
  process-last id r c p g e f h s = terminated_lem id r [] c e f h ∙ ground arith

  finish-nil :
      (c : TestController env) (x : Result TestResults × TestController env)
      → c.test.streams ≡ []
      → exchange_with_peer env (record { streams = c.stream_results }) c ≡ x
      → finish env c
        ≡ next x (λ remote c₂.
          (ok stop, record c₂ { report = some (record { streams = c.stream_results }, remote) }))
  unfolding finish broadcast_to_streams collect_test_result
  finish-nil c x e h =
      ap (finish env) same ∙ ap (λ y. next y k) (ap (exchange_with_peer env local) (sym same) ∙ h)
    where
      local : TestResults
      local = record { streams = c.stream_results }

      k : TestResults → TestController env → Result Flow × TestController env
      k remote c₂ = (ok stop, record c₂ { report = some (local, remote) })

      same : c ≡ record c { test = record c.test { streams = [] } }
      same = ap (λ s. record c { test = record c.test { streams = s } }) e

  -- The last round: the stored results are exchanged and reported.
  pub act-finish :
      (old : State) (c c' : TestController env) (remote : TestResults)
      → c.test.streams ≡ []
      → c.test.state ≡ exchange_results
      → c.test.role ≡ server
      → exchange_with_peer env (record { streams = c.stream_results }) c ≡ (ok remote, c')
      → act_on_state env old c
        ≡ (ok stop, record c' { report = some (record { streams = c.stream_results }, remote) })
  unfolding act_on_state act
  act-finish old c c' remote e f g x =
      ap (λ r. act env r c.test.state old c) g
      ∙ ap (λ s. act env server s old c) f
      ∙ finish-nil c _ e x
