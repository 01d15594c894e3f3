-- ===== src/P2/Controller/Loop/Receipt.antt =====
-- What a client does with a message of its server.
use netperf.Prelude.{◌≡◌, ap, ◌∙◌, ℕ, Option, some}
use netperf.P2.Data.{server, client}
use netperf.P2.Control.{State, ServerMessage}
use netperf.P2.Result.{ok}
use netperf.P2.NetUtils.{client_read_message}
use netperf.P2.Runtime.{Runtime}
use netperf.P2.PerfTest.SetState.{set_state-client}
use netperf.P2.Controller.{ControllerMessage, Socket, TestController, stream_terminated}
use netperf.P2.Controller.Run.{
  process_server_message, process_internal_message, process_stream_terminated,
}
use netperf.P2.Controller.Loop.{
  internal, in_header, from_server, receive, receive_as, read_server, abandon,
}

module _ (env : Runtime) where
  open env use {transport, server_json}

  abbrev at_state : Socket env → State → TestController env → TestController env
  at_state s state c = record c { test = record c.test { control_socket = s; state = state } }

  -- A state is taken over.
  pub receive-set_state :
      (state : State) (s : Socket env) (c : TestController env)
      → c.test.role ≡ client
      → client_read_message transport server_json c.test.control_socket
        ≡ (ok (ServerMessage.set_state state), s)
      → receive env from_server c
        ≡ (ok tt, record c { test = record c.test { control_socket = s; state = state } })
  unfolding receive read_server process_server_message
  receive-set_state state s c r e =
      ap (λ p. receive_as env p from_server c) r
      ∙ ap (λ x. process_server_message env x.0 (read_to x.1)) e
      ∙ ap (λ y. (y.0, record c { test = y.1 })) (set_state-client env state (read_to s).test r)
    where
      read_to : Socket env → TestController env
      read_to u = record c { test = record c.test { control_socket = u } }

  -- A notice that comes while no byte of a message has been read.
  pub receive-terminated :
      (id : ℕ) (c : TestController env)
      → c.test.role ≡ client
      → receive env (internal (some (stream_terminated id)) 0) c
        ≡ process_stream_terminated env id c
  unfolding receive process_internal_message abandon
  receive-terminated id c r =
      ap (λ p. receive_as env p (internal (some (stream_terminated id)) 0) c) r

  -- A server handles the messages of its channel alone.
  pub receive-from_server :
      (c : TestController env) → c.test.role ≡ server → receive env from_server c ≡ (ok tt, c)
  unfolding receive receive_as
  receive-from_server c r = ap (λ p. receive_as env p from_server c) r

  pub receive-internal :
      (m : Option (ControllerMessage (Socket env))) (k : ℕ) (c : TestController env)
      → c.test.role ≡ server
      → receive env (internal m k) c ≡ process_internal_message env m c
  unfolding receive
  receive-internal m k c r = ap (λ p. receive_as env p (internal m k) c) r

  pub receive-in_header :
      (m : Option (ControllerMessage (Socket env))) (k : ℕ) (c : TestController env)
      → c.test.role ≡ server
      → receive env (in_header m k) c ≡ process_internal_message env m c
  unfolding receive
  receive-in_header m k c r = ap (λ p. receive_as env p (in_header m k) c) r
