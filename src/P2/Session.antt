-- ===== src/P2/Session.antt =====
-- A whole test on either side, from its first message to its last: crates/netperf-p2/src/client.rs,
-- and the task that a server starts for a test, crates/netperf-p2/src/server.rs.
pub mod Start
pub mod Script
pub mod Results
pub mod Sides
pub mod Ends
pub mod Sums
pub mod Hosts
use netperf.Prelude.{ℕ, String, Bool, Option, none, some, List}
use netperf.P2.Data.{ClientOpts}
use netperf.P2.Result.{Result, ok, err, panic, diverged}
use netperf.P2.Runtime.{Runtime}
use netperf.P2.PerfTest.{PerfTest}
use netperf.P2.Controller.{Socket, TestController, new}
use netperf.P2.Controller.Loop.{Choice, run_controller}
use netperf.P2.Server.{create_test}
use netperf.P2.Client.{run_client as create_client_test}

-- What a server logs and prints of a test that was not created, and of one that was.
pub data Ending : Type 0 where
  rejected aborted done : Ending

module _ (env : Runtime) where
  -- The controller of a test that was created. A panic aborts the program, also in a task.
  controlled :
      (fuel : ℕ)
      → List (Choice (Socket env))
      → Result (PerfTest env)
      → Result (Unit {0}) × Option (TestController env)
  controlled fuel schedule (ok test) =
      let ran = run_controller env fuel schedule (new env test) in (ran.0, some ran.1)
  controlled fuel schedule (err e) = (err e, none)
  controlled fuel schedule panic = (panic, none)
  controlled fuel schedule diverged = (diverged, none)

  unfoldable pub run_client :
      (address cookie version : String)
      → ClientOpts
      → (fuel : ℕ) → List (Choice (Socket env))
      → Result (Unit {0}) × Option (TestController env)
  unfolding controlled
  run_client address cookie version opts fuel schedule =
      controlled fuel schedule (create_client_test env address cookie version opts)

  ending : Option (TestController env) → Result (Unit {0}) → Result Ending
  ending (some c) (ok _) = ok done
  ending (some c) (err e) = ok aborted
  ending none (ok _) = ok rejected
  ending none (err e) = ok rejected
  ending c panic = panic
  ending c diverged = diverged

  -- A connection that a server without a test accepts.
  unfoldable pub serve :
      (late : Bool)
      → Socket env
      → (fuel : ℕ) → List (Choice (Socket env))
      → Result Ending × Option (TestController env)
  unfolding controlled ending
  serve late inbound fuel schedule =
      let ran = controlled fuel schedule (create_test env late inbound).0 in
      (ending ran.1 ran.0, ran.1)
