-- ===== src/P2/Controller/Loop.antt =====
-- The loop of `run_controller` over a schedule: what the select picks at each wait.
pub mod Receipt
pub mod Validity
use netperf.Prelude.{ℕ, zero, suc, Option, List, [], ◌∷◌}
use netperf.P2.Data.{Role, server, client}
use netperf.P2.Control.{State}
use netperf.P2.Result.{Result, ok, diverged, next}
use netperf.P2.Transport.{Transport}
use netperf.P2.NetUtils.{read_loop, client_read_message}
use netperf.P2.Runtime.{Runtime}
use netperf.P2.Controller.{ControllerMessage, Flow, again, wait, stop, Socket, TestController}
use netperf.P2.Controller.Run.{process_internal_message, process_server_message, act_on_state}

-- `internal m k`: the message `m` of the channel wins. On a client the read of the control socket
-- is then dropped, after `k` of its awaits: the length, then reads of the payload. `in_header m k`:
-- it is dropped within the length, which `k` reads have not completed.
pub data Choice (S : Type 0) : Type 0 where
  internal : Option (ControllerMessage S) → ℕ → Choice S
  in_header : Option (ControllerMessage S) → ℕ → Choice S
  from_server : Choice S

module _ (env : Runtime) where
  open env use {transport, server_json}

  after_size : ℕ → Result ℕ × Socket env → Socket env
  after_size k (ok size, s) = (read_loop transport k size [] s).1
  after_size k (_, s) = s

  -- A read of a control message that is dropped after `k` awaits, the length being the first of them:
  -- the bytes that it took are gone.
  unfoldable pub abandon : ℕ → Socket env → Socket env
  unfolding after_size
  abandon zero s = s
  abandon (suc k) s = after_size k (Transport.read_u32 transport s)

  abbrev drop_read : ℕ → TestController env → TestController env
  drop_read k c = record c {
    test = record c.test { control_socket = abandon k c.test.control_socket };
  }

  -- The bytes of the length that were read are gone.
  abbrev drop_header : ℕ → TestController env → TestController env
  drop_header k c = record c {
    test = record c.test { control_socket = (read_loop transport k 4 [] c.test.control_socket).1 };
  }

  read_server : TestController env → Result (Unit {0}) × TestController env
  read_server c =
      let read = client_read_message transport server_json c.test.control_socket in
      process_server_message env read.0
        (record c { test = record c.test { control_socket = read.1 } })

  -- A server waits for its channel alone, so that it knows no message of the other kind.
  receive_as :
      Role → Choice (Socket env) → TestController env → Result (Unit {0}) × TestController env
  unfolding abandon read_server
  receive_as server (internal m k) c = process_internal_message env m c
  receive_as server (in_header m k) c = process_internal_message env m c
  receive_as server from_server c = (ok tt, c)
  receive_as client (internal m k) c = process_internal_message env m (drop_read k c)
  receive_as client (in_header m k) c = process_internal_message env m (drop_header k c)
  receive_as client from_server c = read_server c

  unfoldable pub receive :
      Choice (Socket env) → TestController env → Result (Unit {0}) × TestController env
  unfolding receive_as
  receive choice c = receive_as c.test.role choice c

  -- The rest of a round, behind the `match` on the state; `now` is the state that it matched.
  abbrev pub turn :
      (rec : List (Choice (Socket env))
        → State
        → TestController env
        → Result (Unit {0}) × TestController env)
      → (now old : State) → List (Choice (Socket env))
      → Flow
      → TestController env
      → Result (Unit {0}) × TestController env
  turn rec now old schedule stop c = (ok tt, c)
  turn rec now old schedule again c = rec schedule old c
  turn rec now old [] wait c = (diverged, c)
  turn rec now old (choice ∷ rest) wait c = next (receive choice c) (λ _ c'. rec rest now c')

  -- `old` is the state at the last wait. `diverged` with an empty schedule is a loop that still
  -- waits; each round takes one unit of fuel.
  unfoldable pub run :
      ℕ
      → List (Choice (Socket env))
      → State
      → TestController env
      → Result (Unit {0}) × TestController env
  run zero schedule old c = (diverged, c)
  run (suc fuel) schedule old c =
      next (act_on_state env old c) (turn (run fuel) c.test.state old schedule)

  unfoldable pub run_controller :
      ℕ → List (Choice (Socket env)) → TestController env → Result (Unit {0}) × TestController env
  unfolding run
  run_controller fuel schedule c = run fuel schedule c.test.state c
