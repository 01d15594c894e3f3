-- ===== src/P2/Session/Start.antt =====
-- How many streams the two sides of a test need, and what they are.
use netperf.Prelude.{ℕ, ◌+◌, ◌≡◌, refl, String, Option, List, u16, arith, ap}
use netperf.P2.Data.{Role, server, client, TestParameters}
use netperf.P2.Control.{test_start}
use netperf.P2.Runtime.{Runtime, start_load}
use netperf.P2.PerfTest.{StreamWorkerRef, client_counts}
use netperf.P2.PerfTest
use netperf.P2.Controller.{Socket, TestController, new, total_needed_streams, broadcast_to_streams}
use netperf.P2.Controller.Gathering.{registered, registered-at_state}

-- The number of streams of a test.
abbrev pub needed : TestParameters → ℕ
needed params =
    let counts = client_counts params.direction params.parallel in u16 (counts.0 + counts.1)

module _ (env : Runtime) where
  abbrev pub controller_of :
      Option String → String → Socket env → Role → TestParameters → TestController env
  controller_of address cookie s role params =
      new env (PerfTest.new env address cookie s role params)

  -- The streams of a side at the start of the load.
  abbrev pub loaded : List (Socket env) → TestController env → List (ℕ × StreamWorkerRef env)
  loaded ss c = (broadcast_to_streams env start_load (registered env ss c)).test.streams

  pub total_needed_streams-server :
      (address : Option String) (cookie : String) (s : Socket env) (params : TestParameters)
      → total_needed_streams env (controller_of address cookie s server params).test ≡ needed params
  unfolding PerfTest.new new
  total_needed_streams-server address cookie s params = omega arith

  pub total_needed_streams-client :
      (address : Option String) (cookie : String) (s : Socket env) (params : TestParameters)
      → total_needed_streams env (controller_of address cookie s client params).test ≡ needed params
  unfolding PerfTest.new new
  total_needed_streams-client address cookie s params = refl

  -- The streams do not depend on the control socket.
  pub loaded-socket :
      (address : Option String) (cookie : String) (s u : Socket env) (role : Role)
      (params : TestParameters) (ss : List (Socket env))
      → loaded ss (controller_of address cookie u role params)
        ≡ loaded ss (controller_of address cookie s role params)
  unfolding PerfTest.new new broadcast_to_streams
  loaded-socket address cookie s u role params ss =
      ap (λ c. (broadcast_to_streams env start_load c).test.streams)
        (registered-at_state env u test_start ss (controller_of address cookie s role params))
