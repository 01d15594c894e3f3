-- ===== src/P2/PerfTest/SetState.antt =====
-- `set_state`: a server tells its client before the state changes.
use netperf.Prelude.{◌<◌, ◌≡◌, ◌⊎◌, ◌^◌, List, ◌++◌, ℕ, length, some, arith}
use netperf.P2.Data.{Role, server, client}
use netperf.P2.Control.{State, ServerMessage, ServerEnvelope}
use netperf.P2.Result.{Error, Result, ok, err, panic, diverged, context, next}
use netperf.P2.Transport.{Transport, Writes, Json}
use netperf.P2.Runtime.{Runtime}
use netperf.P2.NetUtils.{server_send_message}
use netperf.P2.NetUtils.RoundTrip.{frame, send_control_message_lem}
use netperf.P2.PerfTest.{PerfTest, set_state, sync_state}

module _ (env : Runtime) where
  open env use {transport, server_json}

  pub set_state_sent :
      (state : State) (p : PerfTest env) (s : Transport.Socket transport)
      → p.role ≡ server
      → server_send_message transport server_json (ServerMessage.set_state state) p.control_socket
        ≡ (ok tt, s)
      → set_state env state p ≡ (ok tt, record p { control_socket = s; state = state })
  unfolding set_state
  set_state_sent state p s h e = ground arith

  -- On a server whose control socket is open for writing and whose text for the new state fits 32
  -- bits, `set_state` returns ok, changes the state and the socket alone, and writes exactly one
  -- frame with that text.
  pub set_state-server :
      (w : Writes transport) (state : State) (p : PerfTest env) (payload : List ℕ)
      → p.role ≡ server
      → w.IsOpen p.control_socket
      → Json.to_string server_json (ServerEnvelope.server_message (ServerMessage.set_state state))
        ≡ some payload
      → length payload < 2 ^ 32
      → (s : Transport.Socket transport) × (set_state env state p
          ≡ (ok tt, record p { control_socket = s; state = state }))
        × w.IsOpen s
        × (w.sent s ≡ w.sent p.control_socket ++ frame payload)
  unfolding server_send_message
  set_state-server w state p payload h o e l =
      let (s, sent, o', all) =
        send_control_message_lem transport server_json w _ payload p.control_socket o e l in
      (s, set_state_sent state p s h sent, o', all)

  -- On a client it only sets the state.
  pub set_state-client :
      (state : State) (p : PerfTest env)
      → p.role ≡ client
      → set_state env state p ≡ (ok tt, record p { state = state })
  unfolding set_state
  set_state-client state p h = ground arith

  -- If a server's message to the client fails, `set_state` fails with that error in its context,
  -- and the state stays as it was.
  pub set_state_failed :
      (state : State) (p : PerfTest env) (s : Transport.Socket transport) (e : Error)
      → p.role ≡ server
      → server_send_message transport server_json (ServerMessage.set_state state) p.control_socket
        ≡ (err e, s)
      → set_state env state p
        ≡ (err (context "Cannot send the state to the client" e), record p { control_socket = s })
  unfolding set_state
  set_state_failed state p s e h f = ground arith

  -- Whatever becomes of it, `set_state` leaves all else alone.
  pub set_state_keeps :
      (state : State) (p : PerfTest env)
      → let p' = (set_state env state p).1 in
        (p'.streams ≡ p.streams) × (p'.role ≡ p.role) × ((p'.state ≡ p.state) ⊎ (p'.state ≡ state))
  unfolding set_state
  set_state_keeps state p = ground arith

  pub set_state_fixed :
      (state : State) (p : PerfTest env)
      → let p' = (set_state env state p).1 in
        (p'.cookie ≡ p.cookie)
        × (p'.num_send_streams ≡ p.num_send_streams)
        × (p'.num_receive_streams ≡ p.num_receive_streams)
  unfolding set_state
  set_state_fixed state p = ground arith

  sync_state_preserves {κ} :
      (P : PerfTest env → Type κ) (role : Role) (state : State) (p : PerfTest env)
      → ((s : Transport.Socket transport) → P (record p { control_socket = s }))
      → P (sync_state env role state p).1
  unfolding sync_state
  sync_state_preserves P server state p h = h _
  sync_state_preserves P client state p h = h p.control_socket

  assign_preserves {κ} :
      (P : PerfTest env → Type κ) (state : State) (x : Result (Unit {0}) × PerfTest env)
      → ((s : Transport.Socket transport) (st : State) (q : PerfTest env)
          → P q
          → P (record q { control_socket = s; state = st }))
      → P x.1
      → P (next {0, 0, 0} x (λ _ p'. (ok tt, record p' { state = state }))).1
  assign_preserves P state (ok _, q) moves k = moves q.control_socket state q k
  assign_preserves P state (err _, q) moves k = k
  assign_preserves P state (panic, q) moves k = k
  assign_preserves P state (diverged, q) moves k = k

  -- What does not speak of the control socket and of the state is still true.
  pub set_state_preserves {κ} :
      (P : PerfTest env → Type κ) (state : State) (p : PerfTest env)
      → ((s : Transport.Socket transport) (st : State) (q : PerfTest env)
          → P q
          → P (record q { control_socket = s; state = st }))
      → P p
      → P (set_state env state p).1
  unfolding set_state
  set_state_preserves P state p moves h =
      assign_preserves P state (sync_state env p.role state p) moves
        (sync_state_preserves P p.role state p (λ s. moves s p.state p h))
