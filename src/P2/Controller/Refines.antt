-- ===== src/P2/Controller/Refines.antt =====
-- A server's `run_controller` does nothing but steps of the protocol.
use netperf.Prelude.{
  ℕ, zero, suc, ◌≤◌, ◌≡◌, ◌≢◌, refl, ap, sym, subst, ◌+◌, Option, none, some, length, String, List,
  [], ◌∷◌, arith,
}
use netperf.P2.Data.{server}
use netperf.P2.Control.{
  State, test_start, create_streams, running, exchange_results, display_results,
}
use netperf.P2.Result.{Result, ok, err, panic, diverged, next}
use netperf.P2.Runtime.{Runtime}
use netperf.P2.Controller.{
  ControllerMessage, create_stream, stream_terminated, Flow, again, wait, stop, Socket,
  TestController, total_needed_streams,
}
use netperf.P2.Controller.Run.{act_on_state}
use netperf.P2.Controller.Run.Stages.{
  with_message, IsReached, IsGathering, view, process_internal_message-IsReached,
}
use netperf.P2.Controller.Run.Rounds.{IsActed, act_on_state-IsActed}
use netperf.P2.Controller.Loop.{
  Choice, internal, in_header, from_server, receive, turn, run, run_controller,
}
use netperf.P2.Controller.Loop.Receipt.{receive-internal, receive-in_header, receive-from_server}
use netperf.P2.Controller.Protocol.{
  View, rank, at, Reach, here, Reach-rank, Reach-early, Reach-more, Reach-full,
}

rank_early : (st : State) → st ≢ display_results → rank st ≤ 3
rank_early test_start n = omega arith
rank_early (create_streams k) n = omega arith
rank_early running n = omega arith
rank_early exchange_results n = omega arith
rank_early display_results n = absurd (n refl)

-- The controller from some point on.
abbrev Rest : (env : Runtime) → Type 0
Rest env =
    List (Choice (Socket env)) → State → TestController env → Result (Unit {0}) × TestController env

-- How many connections the controller has been handed at the end of a schedule.
abbrev pub handed : {S : Type 0} → List (Choice S) → ℕ → ℕ
handed [] k = k
handed (internal m j ∷ rest) k = handed rest (with_message m k)
handed (in_header m j ∷ rest) k = handed rest (with_message m k)
handed (from_server ∷ rest) k = handed rest k

-- From `c`, on a schedule with `k` connections, a call ends in a controller that steps of the
-- protocol lead to; if it ends well then the results have been exchanged, and if the state has
-- become Running then there were enough streams and connections.
pub record IsRefined (env : Runtime) (c : TestController env) (k : ℕ)
    (x : Result (Unit {0}) × TestController env) : Type 0 where
  pub path :
      Reach c.test.cookie
        (total_needed_streams env c.test)
        (view env c.test.cookie (total_needed_streams env c.test) c)
        k
        (view env c.test.cookie (total_needed_streams env c.test) x.1)
  pub forward : rank c.test.state ≤ rank x.1.test.state
  pub full :
      rank c.test.state ≤ 1
      → x.1.test.state ≡ running
      → total_needed_streams env c.test ≤ length c.test.streams + k
  pub over :
      x.0 ≡ ok tt
      → view env c.test.cookie (total_needed_streams env c.test) x.1 ≡ at exchange_results 0

module _ (env : Runtime) (cookie : String) (total : ℕ) (v : View) (early : rank v.state ≤ 3) where
  -- Where a run has got to.
  record IsRun (k : ℕ) (x : Result (Unit {0}) × TestController env) : Type 0 where
    reached : IsReached env cookie total v k x.1
    over : x.0 ≡ ok tt → view env cookie total x.1 ≡ at exchange_results 0

  one_more :
      (m : Option (ControllerMessage (Socket env))) (k : ℕ) (w : View)
      → Reach cookie total v k w
      → Reach cookie total v (with_message m k) w
  one_more none k w r = r
  one_more (some (create_stream s)) k w r = Reach-more r
  one_more (some (stream_terminated id)) k w r = r

  -- What is left of the schedule allows as much and more.
  handed-Reach :
      (schedule : List (Choice (Socket env))) (k : ℕ) (w : View)
      → Reach cookie total v k w
      → Reach cookie total v (handed schedule k) w
  handed-Reach [] k w r = r
  handed-Reach (internal m j ∷ rest) k w r =
      handed-Reach rest (with_message m k) w (one_more m k w r)
  handed-Reach (in_header m j ∷ rest) k w r =
      handed-Reach rest (with_message m k) w (one_more m k w r)
  handed-Reach (from_server ∷ rest) k w r = handed-Reach rest k w r

  handed-IsReached :
      (schedule : List (Choice (Socket env))) (k : ℕ) (c : TestController env)
      → IsReached env cookie total v k c
      → IsReached env cookie total v (handed schedule k) c
  handed-IsReached schedule k c h = record {
    of = h.of;
    path = handed-Reach schedule k (view env cookie total c) h.path;
  }

  -- What `run` with less fuel keeps to.
  Runs : (rec : Rest env) → Type 0
  Runs rec =
      (k : ℕ) (schedule : List (Choice (Socket env))) (old : State) (c : TestController env)
      → IsReached env cookie total v k c
      → IsRun (handed schedule k) (rec schedule old c)

  receive-IsReached :
      (k : ℕ) (choice : Choice (Socket env)) (c : TestController env)
      → IsGathering env cookie total v k c
      → IsReached env cookie total v (handed (choice ∷ []) k) (receive env choice c).1
  receive-IsReached k (internal m j) c g =
      subst (λ x. IsReached env cookie total v (with_message m k) x.1)
        (sym (receive-internal env m j c g.reached.of.role))
        (process_internal_message-IsReached env cookie total v k m c g)
  receive-IsReached k (in_header m j) c g =
      subst (λ x. IsReached env cookie total v (with_message m k) x.1)
        (sym (receive-in_header env m j c g.reached.of.role))
        (process_internal_message-IsReached env cookie total v k m c g)
  receive-IsReached k from_server c g =
      subst (λ x. IsReached env cookie total v k x.1)
        (sym (receive-from_server env c g.reached.of.role)) g.reached

  received :
      (rec : Rest env) (k : ℕ) (now : State) (rest : List (Choice (Socket env)))
      → Runs rec
      → (x : Result (Unit {0}) × TestController env) → IsReached env cookie total v k x.1
      → IsRun (handed rest k) (next x (λ _ c'. rec rest now c'))
  unfolding Runs
  received rec k now rest w (ok _, c) h = w k rest now c h
  received rec k now rest w (err e, c) h = record {
    reached = handed-IsReached rest k c h;
    over = λ f. cc;
  }
  received rec k now rest w (panic, c) h = record {
    reached = handed-IsReached rest k c h;
    over = λ f. cc;
  }
  received rec k now rest w (diverged, c) h = record {
    reached = handed-IsReached rest k c h;
    over = λ f. cc;
  }

  -- The step from one message to the rest of the schedule.
  waited :
      (rec : Rest env) (k : ℕ) (now : State) (choice : Choice (Socket env))
      (rest : List (Choice (Socket env))) (c : TestController env)
      → Runs rec
      → IsGathering env cookie total v k c
      → IsRun (handed (choice ∷ rest) k) (next (receive env choice c) (λ _ c'. rec rest now c'))
  waited rec k now (internal m j) rest c w g =
      received rec (with_message m k) now rest w (receive env (internal m j) c)
        (receive-IsReached k (internal m j) c g)
  waited rec k now (in_header m j) rest c w g =
      received rec (with_message m k) now rest w (receive env (in_header m j) c)
        (receive-IsReached k (in_header m j) c g)
  waited rec k now from_server rest c w g =
      received rec k now rest w (receive env from_server c) (receive-IsReached k from_server c g)

  turn_lem :
      (rec : Rest env) (k : ℕ) (now old : State) (schedule : List (Choice (Socket env)))
      → Runs rec
      → (x : Result Flow × TestController env) → IsActed env cookie total v k x.0 x.1
      → IsRun (handed schedule k) (next x (turn env rec now old schedule))
  unfolding Runs
  turn_lem rec k now old schedule w (ok stop, c) a = record {
    reached = handed-IsReached schedule k c a.reached;
    over = λ f. a.stops refl;
  }
  turn_lem rec k now old schedule w (ok again, c) a = w k schedule old c a.reached
  turn_lem rec k now old [] w (ok wait, c) a = record { reached = a.reached; over = λ f. cc }
  turn_lem rec k now old (choice ∷ rest) w (ok wait, c) a =
      waited rec k now choice rest c w (record { reached = a.reached; open_state = a.waits refl })
  turn_lem rec k now old schedule w (err e, c) a = record {
    reached = handed-IsReached schedule k c a.reached;
    over = λ f. cc;
  }
  turn_lem rec k now old schedule w (panic, c) a = record {
    reached = handed-IsReached schedule k c a.reached;
    over = λ f. cc;
  }
  turn_lem rec k now old schedule w (diverged, c) a = record {
    reached = handed-IsReached schedule k c a.reached;
    over = λ f. cc;
  }

  run-IsRun : (fuel : ℕ) → Runs (run env fuel)
  unfolding run Runs
  run-IsRun zero k schedule old c h = record {
    reached = handed-IsReached schedule k c h;
    over = λ f. cc;
  }
  run-IsRun (suc fuel) k schedule old c h =
      let sooner = Reach-early h.path early in
      let shown : c.test.state ≢ display_results =
        λ e. let late = ap rank e in omega (arith, late, sooner) in
      turn_lem (run env fuel) k c.test.state old schedule (run-IsRun fuel) (act_on_state env old c)
        (act_on_state-IsActed env cookie total v k old c h shown)

-- For a server whose state is not DisplayResults, whatever the fuel and the schedule and however
-- the call ends, the controller that `run_controller` leaves behind is one that steps of the
-- protocol lead to, with no more joining streams than the schedule has connections, each of them
-- one stream at most: the state goes from TestStart to CreateStreams with the test's cookie, to
-- Running only at a moment with as many streams registered as the test needs, to ExchangeResults
-- only with none registered, streams come and go one at a time while the state is CreateStreams or
-- Running alone, and at ExchangeResults only the streams are dropped; no state comes back. So a
-- server that was at TestStart or CreateStreams is at Running only if the streams that it had and
-- the connections of the schedule are as many as the test needs; and if the call ends with ok then
-- the state is ExchangeResults and no stream is registered.
pub run_controller-IsRefined :
    (env : Runtime) (fuel : ℕ) (schedule : List (Choice (Socket env))) (c : TestController env)
    → c.test.role ≡ server
    → c.test.state ≢ display_results
    → IsRefined env c (handed schedule 0) (run_controller env fuel schedule c)
unfolding run_controller Runs
run_controller-IsRefined env fuel schedule c r n =
    let key = c.test.cookie in
    let total = total_needed_streams env c.test in
    let v = view env key total c in
    let start : IsReached env key total v 0 c = record {
      of = record { role = r; cookie_of = refl; total_of = refl };
      path = here;
    } in
    let x =
      run-IsRun env key total v (rank_early c.test.state n) fuel 0 schedule c.test.state c start in
    record {
      path = x.reached.path;
      forward = Reach-rank x.reached.path;
      full = Reach-full x.reached.path;
      over = x.over;
    }
