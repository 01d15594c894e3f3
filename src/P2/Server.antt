-- ===== src/P2/Server.antt =====
-- crates/netperf-p2/src/server.rs: the accept loop and the creation of a test.
pub mod Slots
pub mod Replies
pub mod Arrivals
use netperf.Prelude.{ℕ, String, Bool, true, false, Option, none, some, List, [], ◌∷◌, if◌then◌else◌}
use text.Mathlib.Text.{◌==◌ as str_eq}
use netperf.P2.Data.{server, TestParameters, internal_prot_buffer}
use netperf.P2.Control.{
  State, test_start, create_streams, running, exchange_results, display_results, access_denied,
  ClientMessage, ServerMessage,
}
use netperf.P2.Result.{Result, ok, err, panic, diverged, Error, io, message, context, next, ignore}
use netperf.P2.Transport.{Transport}
use netperf.P2.NetUtils.{server_send_message, server_send_error, server_read_message}
use netperf.P2.Runtime.{Runtime, Mpsc}
use netperf.P2.PerfTest.{PerfTest, new}
use netperf.P2.Controller.{ControllerMessage, create_stream, Socket}

-- The two ways in which a read of the cookie fails.
abbrev pub cookie_of : Result ClientMessage → Result String
cookie_of (ok (ClientMessage.hello cookie)) = ok cookie
cookie_of (ok _) = err (message "Client sent the wrong welcome message")
cookie_of (err e) = err (message "Failed to finish initial negotiation")
cookie_of panic = panic
cookie_of diverged = diverged

abbrev pub params_of : ClientMessage → Result TestParameters
params_of (ClientMessage.send_parameters params) = ok params
params_of _ = err (message "Unexpected message, we expect SendParameters")

-- `timeout(..).await.context(..)??`, where `late` says that the timer comes first.
abbrev pub within {ℓ} : {A : Type ℓ} → (late : Bool) → Result A → Result A
within true _ = err (context "Timed out waiting for the protocol negotiation!" io)
within false r = r

module _ (env : Runtime) where
  open env use {transport, server_json, client_json}

  unfoldable pub read_cookie : Socket env → Result String × Socket env
  read_cookie s =
      let read = server_read_message transport client_json s in (cookie_of read.0, read.1)

  unfoldable pub read_test_parameters : Socket env → Result TestParameters × Socket env
  read_test_parameters s =
      next (server_read_message transport client_json s) (λ m s'. (params_of m, s'))

  unfoldable pub create_test : (late : Bool) → Socket env → Result (PerfTest env) × Socket env
  unfolding read_cookie read_test_parameters
  create_test late s = next (read_cookie s) λ cookie s₁.
      next (server_send_message transport server_json ServerMessage.welcome s₁) λ _ s₂.
        let read = read_test_parameters s₂ in
        next (within late read.0, read.1)
          (λ params s₃. (ok (new env none cookie s₃ server params), s₃))

  module _ (queue : Mpsc (ControllerMessage (Socket env))) where
    abbrev pub Channel : Type 0
    Channel = Mpsc.Channel queue

    -- What the loop meets: a connection, and whether its negotiation is too slow; between two
    -- connections, a controller that ran, with the state and the channel it left, or that ended; and
    -- a listener that fails. The state is locked while a connection is handled.
    pub data Event : Type 0 where
      accept : Socket env → (late : Bool) → Event
      controller : State → Channel → Event
      test_ended : Event
      accept_failed : Event

    -- `in_flight` is what the weak reference leads to. `tests` are those whose controllers were
    -- started and `refused` the connections that were turned away, both with the latest first.
    pub record Server : Type 0 where
      pub in_flight : Option State
      pub controller_channel : Option Channel
      pub tests : List (PerfTest env)
      pub refused : List (Socket env)

    abbrev pub idle : Server
    idle = record { in_flight = none; controller_channel = none; tests = []; refused = [] }

    turn_away : Socket env → Server → Result (Unit {0}) × Server
    turn_away inbound c =
        let told =
          server_send_error transport server_json (access_denied "Test already in-flight")
            inbound in
        (ignore told.0, record c { refused = told.1 ∷ c.refused })

    -- `controller_channel.clone().unwrap()`, then `try_send`.
    hand_over : Socket env → Option Channel → Server → Result (Unit {0}) × Server
    hand_over inbound none c = (panic, c)
    hand_over inbound (some channel) c =
        let taken = Mpsc.try_send queue (create_stream inbound) channel in
        (if taken.0 then ok tt else err io, record c { controller_channel = some taken.1 })

    welcome_stream : Socket env → Server → Result (Unit {0}) × Server
    unfolding hand_over
    welcome_stream inbound c =
        let told = server_send_message transport server_json ServerMessage.welcome inbound in
        next (told.0, c) (λ _ c'. hand_over told.1 c'.controller_channel c')

    pub authenticate : String → Socket env → Server → Result (Unit {0}) × Server
    unfolding read_cookie turn_away welcome_stream
    authenticate cookie inbound c =
        let read = read_cookie inbound in
        next (read.0, c)
          (λ client_cookie c'.
            if str_eq client_cookie cookie then welcome_stream read.1 c' else turn_away read.1 c')

    -- A test that cannot be created is only logged.
    start : Result (PerfTest env) → Server → Result (Unit {0}) × Server
    start (ok test) c = (
      ok tt,
      record c {
        in_flight = some test.state;
        controller_channel = some (Mpsc.channel queue internal_prot_buffer);
        tests = test ∷ c.tests;
      },
    )
    start (err e) c = (ok tt, c)
    start panic c = (panic, c)
    start diverged c = (diverged, c)

    pub handle : Option State → (late : Bool) → Socket env → Server → Result (Unit {0}) × Server
    unfolding create_test authenticate turn_away start
    handle none late inbound c = start (create_test late inbound).0 c
    handle (some (create_streams cookie)) late inbound c = authenticate cookie inbound c
    handle (some test_start) late inbound c = turn_away inbound c
    handle (some running) late inbound c = turn_away inbound c
    handle (some exchange_results) late inbound c = turn_away inbound c
    handle (some display_results) late inbound c = turn_away inbound c

    -- The controller's task between two connections.
    progress : State → Channel → Option State → Server → Server
    progress state channel none c = c
    progress state channel (some _) c = record c {
      in_flight = some state;
      controller_channel = some channel;
    }

    -- The loop; with no event left it still waits.
    unfoldable pub run_server : List Event → Server → Result (Unit {0}) × Server
    unfolding handle progress
    run_server [] c = (diverged, c)
    run_server (accept_failed ∷ events) c = (ok tt, c)
    run_server (test_ended ∷ events) c = run_server events (record c { in_flight = none })
    run_server (controller state channel ∷ events) c =
        run_server events (progress state channel c.in_flight c)
    run_server (accept inbound late ∷ events) c =
        next (handle c.in_flight late inbound c) (λ _ c'. run_server events c')
