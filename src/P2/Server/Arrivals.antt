-- ===== src/P2/Server/Arrivals.antt =====
-- The data connections of a test as the accept loop meets them, one after the other.
use mathlib.Core.List.{append_assoc, append-nil}
use netperf.Prelude.{
  ℕ, ◌+◌, ◌≤◌, ◌<◌, ◌≡◌, refl, ap, sym, ◌∙◌, String, false, some, List, [], ◌∷◌, ◌++◌, map, length,
  length-append, All, arith,
}
use netperf.P2.Data.{max_control_message, internal_prot_buffer}
use netperf.P2.Control.{
  State, create_streams, ClientMessage, ServerMessage, ClientEnvelope, ServerEnvelope,
}
use netperf.P2.Result.{ok, next}
use netperf.P2.Transport.{Json, IsJson, Duplex}
use netperf.P2.Runtime.{Runtime, Mpsc, IsMpsc}
use netperf.P2.NetUtils.{server_send_message, server_read_message}
use netperf.P2.NetUtils.RoundTrip.{frame}
use netperf.P2.NetUtils.Both.{Holds, send_lem, read_lem}
use netperf.P2.Controller.{ControllerMessage, create_stream, Socket}
use netperf.P2.PerfTest.{PerfTest}
use netperf.P2.Server.{
  Event, accept, controller, Server, idle, create_test, start, handle, progress, run_server,
}
use netperf.P2.Server.Replies.{accept_step, cookie_lem, handle-streams, authenticate-same}

module _ (env : Runtime) where
  open env use {transport, server_json, client_json}

  -- A connection behind its handshake.
  abbrev pub welcomed : Socket env → Socket env
  welcomed s =
      (server_send_message transport server_json ServerMessage.welcome
        (server_read_message transport client_json s).1).1

  -- A connection on which the hello arrives.
  pub record IsArriving (d : Duplex transport) (hello : List ℕ) (s : Socket env) : Type 0 where
    pub sent : List ℕ
    pub rest : List ℕ
    pub holds : Holds transport d sent (frame hello ++ rest) s

  module _ (queue : Mpsc (ControllerMessage (Socket env))) where
    abbrev pub arrivals : List (Socket env) → List (Event env queue) → List (Event env queue)
    arrivals [] events = events
    arrivals (s ∷ ss) events = accept s false ∷ arrivals ss events

    -- A server without a test that creates one.
    pub run_server-created :
        (s after : Socket env) (test : PerfTest env) (events : List (Event env queue))
        → create_test env false s ≡ (ok test, after)
        → run_server env queue (accept s false ∷ events) (idle env queue)
          ≡ run_server env queue events (record {
            in_flight = some test.state;
            controller_channel = some (Mpsc.channel queue internal_prot_buffer);
            tests = test ∷ [];
            refused = [];
          })
    unfolding run_server handle start
    run_server-created s after test events e =
        ap
          (λ x.
            next (start env queue x.0 (idle env queue)) (λ _ c'. run_server env queue events c'))
          e

    pub run_server-progress :
        (now state : State) (channel : Mpsc.Channel queue) (events : List (Event env queue))
        (c : Server env queue)
        → c.in_flight ≡ some now
        → run_server env queue (controller state channel ∷ events) c
          ≡ run_server env queue events
              (record c { in_flight = some state; controller_channel = some channel })
    unfolding run_server progress
    run_server-progress now state channel events c e =
        ap (λ x. run_server env queue events (progress env queue state channel x c)) e

    -- The channel behind them.
    abbrev pub queued : List (Socket env) → Mpsc.Channel queue → Mpsc.Channel queue
    queued [] channel = channel
    queued (s ∷ ss) channel = queued ss (Mpsc.try_send queue (create_stream (welcomed s)) channel).1

    module _ (d : Duplex transport) (q : IsMpsc (ControllerMessage (Socket env)) queue)
        (hello welcome : List ℕ) (cookie : String) (is_json : IsJson ClientEnvelope client_json)
        (hello_text : Json.to_string client_json
            (ClientEnvelope.client_message (ClientMessage.hello cookie))
          ≡ some hello)
        (welcome_text : Json.to_string server_json
            (ServerEnvelope.server_message ServerMessage.welcome)
          ≡ some welcome)
        (hello_fits : length hello ≤ max_control_message)
        (welcome_fits : length welcome ≤ max_control_message) where
      accept-arriving :
          (s : Socket env) (events : List (Event env queue)) (channel : Mpsc.Channel queue)
          (c : Server env queue)
          → c.in_flight ≡ some (create_streams cookie)
          → c.controller_channel ≡ some channel
          → length (q.waiting channel) < q.capacity channel
          → IsArriving d hello s
          → run_server env queue (accept s false ∷ events) c
            ≡ run_server env queue events
                (record c { controller_channel = some (queued (s ∷ []) channel) })
      unfolding server_send_message server_read_message
      accept-arriving s events channel c f g room h =
          let (s₁, got, h₁) =
            read_lem transport d client_json is_json _ hello h.sent h.rest s h.holds hello_text
              hello_fits in
          let (s₂, told, after) =
            send_lem transport d server_json _ welcome h.sent h.rest s₁ h₁ welcome_text
              (omega arith) in
          let hello_read : server_read_message transport client_json s
              ≡ (ok (ClientMessage.hello cookie), s₁) =
            rw got refl in
          let there : welcomed s ≡ s₂ =
            ap (λ x. (server_send_message transport server_json ServerMessage.welcome x.1).1)
              hello_read
            ∙ ap (λ x. x.1) told in
          let read = cookie_lem env queue s s₁ cookie hello_read in
          let (taken, _, _) = q.taken (create_stream s₂) channel room in
          accept_step env queue _ false s events c _ f (
            handle-streams env queue cookie false s c
            ∙ authenticate-same env queue cookie s s₁ s₂ channel c read told g taken)
          ∙ ap
              (λ x. run_server env queue events (record c {
                controller_channel = some (Mpsc.try_send queue (create_stream x) channel).1;
              }))
              (sym there)

      pub waiting-queued :
          (ss : List (Socket env)) (channel : Mpsc.Channel queue)
          → length (q.waiting channel) + length ss ≤ q.capacity channel
          → q.waiting (queued ss channel) ≡ q.waiting channel ++ map create_stream (map welcomed ss)
      waiting-queued [] channel room = sym (append-nil (q.waiting channel))
      waiting-queued (s ∷ ss) channel room =
          let (_, all, same) = q.taken (create_stream (welcomed s)) channel (omega arith) in
          let longer =
            ap length all ∙ length-append (q.waiting channel) (create_stream (welcomed s) ∷ []) in
          waiting-queued ss (Mpsc.try_send queue (create_stream (welcomed s)) channel).1
            (omega (arith, longer, same))
          ∙ ap (λ l. l ++ map create_stream (map welcomed ss)) all
          ∙ append_assoc (q.waiting channel) (create_stream (welcomed s) ∷ [])
              (map create_stream (map welcomed ss))

      pub run_server-arrivals :
          (ss : List (Socket env)) (events : List (Event env queue)) (channel : Mpsc.Channel queue)
          (c : Server env queue)
          → c.in_flight ≡ some (create_streams cookie)
          → c.controller_channel ≡ some channel
          → length (q.waiting channel) + length ss ≤ q.capacity channel
          → All (IsArriving d hello) ss
          → run_server env queue (arrivals ss events) c
            ≡ run_server env queue events
                (record c { controller_channel = some (queued ss channel) })
      run_server-arrivals [] events channel c f g room h =
          ap (λ x. run_server env queue events (record c { controller_channel = x })) g
      run_server-arrivals (s ∷ ss) events channel c f g room h =
          let (_, all, same) = q.taken (create_stream (welcomed s)) channel (omega arith) in
          let longer =
            ap length all ∙ length-append (q.waiting channel) (create_stream (welcomed s) ∷ []) in
          let next_channel = queued (s ∷ []) channel in
          accept-arriving s (arrivals ss events) channel c f g (omega arith) h.0
          ∙ run_server-arrivals ss events next_channel
              (record c { controller_channel = some next_channel }) f refl
              (omega (arith, longer, same)) h.1
