-- ===== src/P2/Server/Slots.antt =====
-- One test at a time.
use netperf.Prelude.{
  ℕ, suc, ◌+◌, ◌≤◌, ◌≡◌, refl, String, Bool, Option, none, some, List, [], ◌∷◌, length, arith,
}
use netperf.P2.Control.{
  State, test_start, create_streams, running, exchange_results, display_results,
}
use netperf.P2.Result.{Result, ok, err, panic, diverged, next}
use netperf.P2.Runtime.{Runtime, Mpsc}
use netperf.P2.PerfTest.{PerfTest}
use netperf.P2.Controller.{ControllerMessage, Socket}
use netperf.P2.Server.{
  Event, accept, controller, test_ended, accept_failed, Server, idle, handle, create_test,
  authenticate, turn_away, start, progress, run_server,
}

module _ (env : Runtime) (queue : Mpsc (ControllerMessage (Socket env))) where
  -- How many tests have ended.
  abbrev pub ends : List (Event env queue) → ℕ
  ends [] = 0
  ends (test_ended ∷ events) = suc (ends events)
  ends (_ ∷ events) = ends events

  -- How many tests may still begin before one ends.
  abbrev free : Option State → ℕ
  free none = 1
  free (some _) = 0

  -- The tests that were started, and the place for one more.
  abbrev places : Server env queue → ℕ
  places c = length c.tests + free c.in_flight

  turn_away-keeps :
      (s : Socket env) (c : Server env queue) → places (turn_away env queue s c).1 ≡ places c
  unfolding turn_away
  turn_away-keeps s c = refl

  authenticate-keeps :
      (cookie : String) (s : Socket env) (c : Server env queue)
      → places (authenticate env queue cookie s c).1 ≡ places c
  unfolding authenticate
  authenticate-keeps cookie s c = ground arith

  start-keeps :
      (r : Result (PerfTest env)) (c : Server env queue)
      → c.in_flight ≡ none
      → places (start env queue r c).1 ≤ places c
  unfolding start
  start-keeps (ok test) c h = ground arith
  start-keeps (err e) c h = ground arith
  start-keeps panic c h = ground arith
  start-keeps diverged c h = ground arith

  handle-keeps :
      (state : Option State) (late : Bool) (s : Socket env) (c : Server env queue)
      → c.in_flight ≡ state
      → places (handle env queue state late s c).1 ≤ places c
  unfolding handle
  handle-keeps none late s c h = start-keeps (create_test env late s).0 c h
  handle-keeps (some (create_streams cookie)) late s c h =
      omega (arith, authenticate-keeps cookie s c)
  handle-keeps (some test_start) late s c h = omega (arith, turn_away-keeps s c)
  handle-keeps (some running) late s c h = omega (arith, turn_away-keeps s c)
  handle-keeps (some exchange_results) late s c h = omega (arith, turn_away-keeps s c)
  handle-keeps (some display_results) late s c h = omega (arith, turn_away-keeps s c)

  progress-keeps :
      (state : State) (channel : Mpsc.Channel queue) (now : Option State) (c : Server env queue)
      → c.in_flight ≡ now
      → places (progress env queue state channel now c) ≡ places c
  unfolding progress
  progress-keeps state channel none c h = refl
  progress-keeps state channel (some st) c h = ground arith

  -- What `run_server` does behind a connection.
  after_handle :
      (events : List (Event env queue)) (n : ℕ) (x : Result (Unit {0}) × Server env queue)
      → ((c : Server env queue) → places (run_server env queue events c).1 ≤ places c + ends events)
      → places x.1 ≤ n
      → places (next x (λ _ c'. run_server env queue events c')).1 ≤ n + ends events
  after_handle events n (ok u, c) rest h = omega (arith, rest c)
  after_handle events n (err e, c) rest h = omega arith
  after_handle events n (panic, c) rest h = omega arith
  after_handle events n (diverged, c) rest h = omega arith

  run_server_lem :
      (events : List (Event env queue)) (c : Server env queue)
      → places (run_server env queue events c).1 ≤ places c + ends events
  unfolding run_server
  run_server_lem [] c = omega arith
  run_server_lem (accept_failed ∷ events) c = omega arith
  run_server_lem (test_ended ∷ events) c =
      let rest = run_server_lem events (record c { in_flight = none }) in ground (arith, rest)
  run_server_lem (controller state channel ∷ events) c = omega (
    arith,
    run_server_lem events (progress env queue state channel c.in_flight c),
    progress-keeps state channel c.in_flight c refl,
  )
  run_server_lem (accept s late ∷ events) c =
      after_handle events (places c) (handle env queue c.in_flight late s c) (run_server_lem events)
        (handle-keeps c.in_flight late s c refl)

  -- Whatever the server meets from its start on, the number of tests that it has started is at
  -- most one more than the number of test ends among what it met.
  pub length-run_server :
      (events : List (Event env queue))
      → length (run_server env queue events (idle env queue)).1.tests ≤ suc (ends events)
  length-run_server events = omega (arith, run_server_lem events (idle env queue))
