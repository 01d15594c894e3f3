-- ===== src/Tests/Client.antt =====
-- A client that ends its test, and its run as steps.
use netperf.Prelude.{refl, ◌≡◌, List, [], ◌∷◌, some, arith}
use netperf.P2.Control.{create_streams, running}
use netperf.P2.Controller.{TestController, create_stream, stream_terminated}
use netperf.P2.Controller.Loop.{Choice, internal, run, run_controller}
use netperf.P2.Controller.Fuel.{run-enough}
use netperf.P2.Controller.Validity.{identity}
use netperf.P2.Controller.Loop.Validity.{Ended, run_controller-Ended}
use netperf.P2.Controller.Refines.{IsRefined, run_controller-IsRefined}
use netperf.Tests.Network.{Wire}
use netperf.Tests.Controller.{socket, controller, loaded}
use netperf.Tests.Texts.{runtime}

-- A server that waits for two streams.
abbrev gathering : TestController runtime
gathering = controller (record loaded { state = create_streams "secret"; streams = [] })

-- Both come, and one of them ends.
abbrev two_come : List (Choice Wire)
two_come =
    internal (some (create_stream (socket []))) 0
    ∷ internal (some (create_stream (socket []))) 0
    ∷ internal (some (stream_terminated 0)) 0
    ∷ []

run_controller-IsRefined_example :
    IsRefined runtime gathering 2 (run_controller runtime 9 two_come gathering)
run_controller-IsRefined_example =
    run_controller-IsRefined runtime 9 two_come gathering refl (λ e. cc)

run-enough_example :
    run runtime 4 (internal (some (stream_terminated 0)) 0 ∷ []) running (controller loaded)
    ≡ run runtime 9 (internal (some (stream_terminated 0)) 0 ∷ []) running (controller loaded)
run-enough_example =
    run-enough runtime 4 9 (internal (some (stream_terminated 0)) 0 ∷ []) running
      (controller loaded) (omega arith) (omega arith)

run_controller-Ended_example :
    let x =
      run_controller runtime 9 (internal (some (stream_terminated 0)) 0 ∷ []) (controller loaded) in
    Ended runtime (identity runtime loaded) x.0 x.1
run_controller-Ended_example =
    run_controller-Ended runtime 9 (internal (some (stream_terminated 0)) 0 ∷ [])
      (controller loaded) (refl, (refl, tt)) tt refl
