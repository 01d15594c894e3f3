-- ===== src/P2/Controller/Loop/Validity.antt =====
-- What `run_controller` keeps, on either side.
use netperf.Prelude.{ℕ, zero, suc, ◌≡◌, refl, none, List, [], ◌∷◌}
use netperf.Prelude.Dicts.{Unique}
use netperf.P2.Data.{Role, server, client}
use netperf.P2.Control.{State}
use netperf.P2.Result.{Result, ok, err, panic, diverged, next}
use netperf.P2.Runtime.{Runtime}
use netperf.P2.Controller.{Flow, again, wait, stop, Socket, TestController}
use netperf.P2.Controller.Run.{act_on_state}
use netperf.P2.Controller.Validity.{Identity, identity, IsKept, IsReported}
use netperf.P2.Controller.Run.Validity.{
  Acted, act_on_state-Acted, process_internal_message-IsKept, process_server_message-IsKept,
}
use netperf.P2.Controller.Loop.{
  Choice, internal, in_header, from_server, receive, receive_as, read_server, drop_read,
  drop_header, turn, run, run_controller,
}

module _ (env : Runtime) where
  open env use {transport, server_json}

  -- How a run ends: with a report only if it ends well.
  unfoldable pub Ended : Identity → Result (Unit {0}) → TestController env → Type 0
  Ended i (ok _) c = IsReported env i c
  Ended i (err e) c = IsKept env i c
  Ended i panic c = IsKept env i c
  Ended i diverged c = IsKept env i c

  module _ (i : Identity) where
    receive_as-IsKept :
        (r : Role) (choice : Choice (Socket env)) (c : TestController env)
        → IsKept env i c
        → IsKept env i (receive_as env r choice c).1
    unfolding receive_as read_server
    receive_as-IsKept server (internal m k) c h = process_internal_message-IsKept env i m c h
    receive_as-IsKept server (in_header m k) c h = process_internal_message-IsKept env i m c h
    receive_as-IsKept server from_server c h = h
    receive_as-IsKept client (internal m k) c h =
        process_internal_message-IsKept env i m (drop_read env k c) h
    receive_as-IsKept client (in_header m k) c h =
        process_internal_message-IsKept env i m (drop_header env k c) h
    receive_as-IsKept client from_server c h = process_server_message-IsKept env i _ _ h

    receive-IsKept :
        (choice : Choice (Socket env)) (c : TestController env)
        → IsKept env i c
        → IsKept env i (receive env choice c).1
    unfolding receive
    receive-IsKept choice c h = receive_as-IsKept c.test.role choice c h

    -- What `run` with less fuel keeps to.
    Runs :
        (rec : List (Choice (Socket env))
          → State
          → TestController env
          → Result (Unit {0}) × TestController env)
        → Type 0
    Runs rec =
        (schedule : List (Choice (Socket env))) (old : State) (c : TestController env)
        → IsKept env i c
        → Ended i (rec schedule old c).0 (rec schedule old c).1

    received :
        (rec : List (Choice (Socket env))
          → State
          → TestController env
          → Result (Unit {0}) × TestController env)
        (now : State) (rest : List (Choice (Socket env)))
        → Runs rec
        → (x : Result (Unit {0}) × TestController env) → IsKept env i x.1
        → Ended i (next x (λ _ c'. rec rest now c')).0 (next x (λ _ c'. rec rest now c')).1
    unfolding Runs Ended
    received rec now rest w (ok _, c) h = w rest now c h
    received rec now rest w (err e, c) h = h
    received rec now rest w (panic, c) h = h
    received rec now rest w (diverged, c) h = h

    turn-Ended :
        (rec : List (Choice (Socket env))
          → State
          → TestController env
          → Result (Unit {0}) × TestController env)
        (now old : State) (schedule : List (Choice (Socket env)))
        → Runs rec
        → (x : Result Flow × TestController env) → Acted env i x.0 x.1
        → Ended i
            (next x (turn env rec now old schedule)).0
            (next x (turn env rec now old schedule)).1
    unfolding Runs Ended
    turn-Ended rec now old schedule w (ok stop, c) a = a
    turn-Ended rec now old schedule w (ok again, c) a = w schedule old c a
    turn-Ended rec now old [] w (ok wait, c) a = a
    turn-Ended rec now old (choice ∷ rest) w (ok wait, c) a =
        received rec now rest w (receive env choice c) (receive-IsKept choice c a)
    turn-Ended rec now old schedule w (err e, c) a = a
    turn-Ended rec now old schedule w (panic, c) a = a
    turn-Ended rec now old schedule w (diverged, c) a = a

    run-Ended : (fuel : ℕ) → Runs (run env fuel)
    unfolding run Runs Ended
    run-Ended zero schedule old c h = h
    run-Ended (suc fuel) schedule old c h =
        turn-Ended (run env fuel) c.test.state old schedule (run-Ended fuel)
          (act_on_state env old c) (act_on_state-Acted env i old c h)

-- Whatever becomes of `run_controller`, on a client or a server and with any fuel and schedule:
-- let no two of the controller's streams and no two of its results have one number, and let
-- nothing be reported yet. Then the address, cookie, role, parameters and both stream counts of
-- the test are in the end what they were, and no two streams and no two results have one number;
-- if the call ends with ok then no stream is registered, and what is reported is exactly the
-- results that the controller keeps, with some results of the peer; if it ends in any other way,
-- nothing is reported.
pub run_controller-Ended :
    (env : Runtime) (fuel : ℕ) (schedule : List (Choice (Socket env))) (c : TestController env)
    → Unique c.test.streams
    → Unique c.stream_results
    → c.report ≡ none
    → Ended env
        (identity env c.test)
        (run_controller env fuel schedule c).0
        (run_controller env fuel schedule c).1
unfolding run_controller Runs
run_controller-Ended env fuel schedule c s r n =
    run-Ended env (identity env c.test) fuel schedule c.test.state c (refl, s, r, n)
