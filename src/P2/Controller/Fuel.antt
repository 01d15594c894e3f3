-- ===== src/P2/Controller/Fuel.antt =====
-- How many rounds `run_controller` takes.
use netperf.Prelude.{
  ℕ, zero, suc, ◌*◌, ◌≤◌, ◌<◌, ◌≡◌, refl, ap, sym, ◌∙◌, Bool, true, false, List, [], ◌∷◌, length,
  arith,
}
use netperf.P2.Data.{Role, server, client}
use netperf.P2.Control.{
  State, test_start, create_streams, running, exchange_results, display_results,
}
use netperf.P2.Result.{Result, ok, err, panic, diverged, next}
use netperf.P2.Runtime.{Runtime}
use netperf.P2.PerfTest.{PerfTest, set_state}
use netperf.P2.Controller.{
  Flow, again, wait, stop, Socket, TestController, on_test, create_streams_on_client,
}
use netperf.P2.Controller.Run.{act, act_on_state}
use netperf.P2.Controller.Run.Rounds.{next_flow, finish_flow}
use netperf.P2.Controller.Loop.{Choice, receive, turn, run}

abbrev is_start : State → Bool
is_start test_start = true
is_start _ = false

again_inv {ℓ} :
    {S : Type ℓ} (x : Result (Unit {0}) × S) (s : S)
    → next x (λ _ s'. (ok again, s')) ≡ (ok again, s)
    → (x.0 ≡ ok tt) × (x.1 ≡ s)
again_inv (ok _, t) s e = (refl, ap (λ y. y.1) e)
again_inv (err _, t) s e = (let f = ap (λ y. y.0) e in cc)
again_inv (panic, t) s e = (let f = ap (λ y. y.0) e in cc)
again_inv (diverged, t) s e = (let f = ap (λ y. y.0) e in cc)

module _ (env : Runtime) where
  set_state-ok :
      (st : State) (p : PerfTest env)
      → (set_state env st p).0 ≡ ok tt
      → (set_state env st p).1.state ≡ st
  unfolding set_state
  set_state-ok st p h = ground arith

  -- The round behind `continue`.
  act-again :
      (r : Role) (st old : State) (c c' : TestController env)
      → act env r st old c ≡ (ok again, c')
      → (is_start st ≡ true) × (is_start c'.test.state ≡ false)
  unfolding act
  act-again server test_start old c c' e =
      let (done, same) =
        again_inv (on_test env (set_state env (create_streams c.test.cookie)) c) c' e in
      let state = set_state-ok (create_streams c.test.cookie) c.test done in
      (refl, sym (ap (λ x. is_start x.test.state) same) ∙ ap is_start state)
  act-again client test_start old c c' e = cc
  act-again server (create_streams k) old c c' e = cc
  act-again client (create_streams k) old c c' e = absurd (
      next_flow (create_streams_on_client env c) _ wait again (λ a s. refl) (λ q. cc)
        (ap (λ x. x.0) e))
  act-again server running old c c' e = cc
  act-again client running old c c' e = cc
  act-again server exchange_results old c c' e =
      absurd (finish_flow env c again (λ q. cc) (ap (λ x. x.0) e))
  act-again client exchange_results old c c' e =
      absurd (finish_flow env c again (λ q. cc) (ap (λ x. x.0) e))
  act-again server display_results old c c' e = cc
  act-again client display_results old c c' e = cc

  -- The controller from some point on.
  abbrev Rest : Type 0
  Rest =
      List (Choice (Socket env))
      → State
      → TestController env
      → Result (Unit {0}) × TestController env

  -- Behind the next message it makes no difference which of the two goes on.
  abbrev Later : Rest → Rest → List (Choice (Socket env)) → Type 0
  Later rec rec' [] = Unit
  Later rec rec' (choice ∷ rest) =
      (now : State) (c : TestController env) → rec rest now c ≡ rec' rest now c

  received_same :
      (rec rec' : Rest) (now : State) (rest : List (Choice (Socket env)))
      (x : Result (Unit {0}) × TestController env)
      → ((c : TestController env) → rec rest now c ≡ rec' rest now c)
      → next x (λ _ c. rec rest now c) ≡ next x (λ _ c. rec' rest now c)
  received_same rec rec' now rest (ok _, c) h = h c
  received_same rec rec' now rest (err e, c) h = refl
  received_same rec rec' now rest (panic, c) h = refl
  received_same rec rec' now rest (diverged, c) h = refl

  turn_same :
      (rec rec' : Rest) (now old : State) (schedule : List (Choice (Socket env)))
      (x : Result Flow × TestController env)
      → Later rec rec' schedule
      → ((c : TestController env) → x ≡ (ok again, c) → rec schedule old c ≡ rec' schedule old c)
      → next x (turn env rec now old schedule) ≡ next x (turn env rec' now old schedule)
  turn_same rec rec' now old schedule (ok stop, c) l a = refl
  turn_same rec rec' now old schedule (ok again, c) l a = a c refl
  turn_same rec rec' now old [] (ok wait, c) l a = refl
  turn_same rec rec' now old (choice ∷ rest) (ok wait, c) l a =
      received_same rec rec' now rest (receive env choice c) (l now)
  turn_same rec rec' now old schedule (err e, c) l a = refl
  turn_same rec rec' now old schedule (panic, c) l a = refl
  turn_same rec rec' now old schedule (diverged, c) l a = refl

  module _ (schedule : List (Choice (Socket env)))
      (below : (g k : ℕ)
        → 2 * length schedule ≤ g
        → 2 * length schedule ≤ k
        → Later (run env g) (run env k) schedule) where
    run-waiting :
        (fuel more : ℕ) (old : State) (c : TestController env)
        → is_start c.test.state ≡ false
        → 2 * length schedule < fuel
        → 2 * length schedule < more
        → run env fuel schedule old c ≡ run env more schedule old c
    unfolding run act_on_state
    run-waiting zero more old c s h k = absurd (omega arith)
    run-waiting (suc fuel) zero old c s h k = absurd (omega arith)
    run-waiting (suc fuel) (suc more) old c s h k =
        turn_same (run env fuel) (run env more) c.test.state old schedule (act_on_state env old c)
          (below fuel more (omega arith) (omega arith))
          (λ c' e. let (start, _) = act-again c.test.role c.test.state old c c' e in cc)

    run-round :
        (fuel more : ℕ) (old : State) (c : TestController env)
        → suc (2 * length schedule) < fuel
        → suc (2 * length schedule) < more
        → run env fuel schedule old c ≡ run env more schedule old c
    unfolding run act_on_state
    run-round zero more old c h k = absurd (omega arith)
    run-round (suc fuel) zero old c h k = absurd (omega arith)
    run-round (suc fuel) (suc more) old c h k =
        turn_same (run env fuel) (run env more) c.test.state old schedule (act_on_state env old c)
          (below fuel more (omega arith) (omega arith))
          (λ c' e.
            let (_, started) = act-again c.test.role c.test.state old c c' e in
            run-waiting fuel more old c' started (omega arith) (omega arith))

  -- On either side and from any state, two runs of the controller's loop over the same schedule
  -- end alike, whatever their fuel, if both have two rounds for each entry of the schedule and two
  -- more: with that much the loop does not run out of fuel, since it never starts again twice
  -- without taking a message.
  pub run-enough :
      (fuel more : ℕ) (schedule : List (Choice (Socket env))) (old : State) (c : TestController env)
      → 2 * suc (length schedule) ≤ fuel
      → 2 * suc (length schedule) ≤ more
      → run env fuel schedule old c ≡ run env more schedule old c
  run-enough fuel more [] old c h k =
      run-round [] (λ g j a b. tt) fuel more old c (omega arith) (omega arith)
  run-enough fuel more (choice ∷ rest) old c h k =
      run-round (choice ∷ rest)
        (λ g j a b now c₁. run-enough g j rest now c₁ (omega arith) (omega arith)) fuel more old c
        (omega arith) (omega arith)
