-- ===== src/P2/Server/Replies.antt =====
-- How the accept loop answers a connection while a test is in flight.
use text.Mathlib.Text.{◌==◌ as str_eq}
use text.Mathlib.TextEquality.{eq_iff}
use netperf.Prelude.{
  ℕ, ◌≤◌, ◌<◌, ◌≡◌, ◌≢◌, refl, ap, ◌∙◌, String, Bool, true, false, Bool-cases, inl, inr, Option,
  some, List, [], ◌∷◌, ◌++◌, length, arith,
}
use netperf.P2.Data.{max_control_message}
use netperf.P2.Control.{
  State, test_start, create_streams, running, exchange_results, display_results, access_denied,
  ClientMessage, ServerMessage, ClientEnvelope, ServerEnvelope,
}
use netperf.P2.Result.{Result, ok, err, io, message, next}
use netperf.P2.Transport.{Json, IsJson, Duplex, Reads}
use netperf.P2.Runtime.{Runtime, Mpsc, IsMpsc}
use netperf.P2.NetUtils.{
  server_send_message, server_send_error, server_read_message, read_control_message,
}
use netperf.P2.NetUtils.RoundTrip.{frame}
use netperf.P2.NetUtils.Both.{Holds, send_lem, read_lem}
use netperf.P2.Controller.{ControllerMessage, create_stream, Socket}
use netperf.P2.Server.{
  Event, accept, Server, handle, authenticate, turn_away, run_server, read_cookie,
}

-- A state in which the server expects no connection.
abbrev pub IsBusy : State → Type 0
IsBusy (create_streams cookie) = ⊥
IsBusy _ = Unit

module _ (env : Runtime) (queue : Mpsc (ControllerMessage (Socket env))) where
  open env use {transport, server_json, client_json}

  -- The loop goes on with `inbound` turned away: it has been sent `sent`, and `pending` is unread.
  pub record TurnsAway (d : Duplex transport) (sent pending : List ℕ) (late : Bool)
      (inbound : Socket env) (events : List (Event env queue)) (c : Server env queue) : Type 0 where
    pub left : Socket env
    pub goes_on :
        run_server env queue (accept inbound late ∷ events) c
        ≡ run_server env queue events (record c { refused = left ∷ c.refused })
    pub holds : Holds transport d sent pending left

  -- A round of the loop.
  pub accept_step :
      (state : Option State) (late : Bool) (inbound : Socket env) (events : List (Event env queue))
      (c : Server env queue) (x : Result (Unit {0}) × Server env queue)
      → c.in_flight ≡ state
      → handle env queue state late inbound c ≡ x
      → run_server env queue (accept inbound late ∷ events) c
        ≡ next x (λ _ c'. run_server env queue events c')
  unfolding run_server
  accept_step state late inbound events c x e h =
      ap (λ st. next (handle env queue st late inbound c) (λ _ c'. run_server env queue events c'))
        e
      ∙ ap (λ y. next y (λ _ c'. run_server env queue events c')) h

  turn_away_lem :
      (inbound left : Socket env) (c : Server env queue)
      → server_send_error transport server_json (access_denied "Test already in-flight") inbound
        ≡ (ok tt, left)
      → turn_away env queue inbound c ≡ (ok tt, record c { refused = left ∷ c.refused })
  unfolding turn_away
  turn_away_lem inbound left c e = ground arith

  handle-busy :
      (state : State) (late : Bool) (inbound : Socket env) (c : Server env queue)
      → IsBusy state
      → handle env queue (some state) late inbound c ≡ turn_away env queue inbound c
  unfolding handle
  handle-busy test_start late inbound c b = refl
  handle-busy (create_streams cookie) late inbound c b = absurd b
  handle-busy running late inbound c b = refl
  handle-busy exchange_results late inbound c b = refl
  handle-busy display_results late inbound c b = refl

  -- With a test in flight that waits for no streams, a connection that is open both ways is sent
  -- one frame with the error that a test is in flight, nothing is read from it, and the loop goes
  -- on with nothing else changed; the text of the error is within the limit.
  run_server-busy :
      (d : Duplex transport) (denied sent pending : List ℕ) (state : State) (late : Bool)
      (inbound : Socket env) (events : List (Event env queue)) (c : Server env queue)
      → c.in_flight ≡ some state
      → IsBusy state
      → Json.to_string server_json (ServerEnvelope.error (access_denied "Test already in-flight"))
        ≡ some denied
      → length denied ≤ max_control_message
      → Holds transport d sent pending inbound
      → TurnsAway d (sent ++ frame denied) pending late inbound events c
  unfolding server_send_error
  run_server-busy d denied sent pending state late inbound events c f b e l h =
      let (left, told, after) =
        send_lem transport d server_json _ denied sent pending inbound h e (omega arith) in
      record {
        left = left;
        goes_on =
            accept_step _ late inbound events c _ f
              (handle-busy state late inbound c b ∙ turn_away_lem inbound left c told);
        holds = after;
      }

  pub cookie_lem :
      (inbound after : Socket env) (cookie : String)
      → server_read_message transport client_json inbound ≡ (ok (ClientMessage.hello cookie), after)
      → read_cookie env inbound ≡ (ok cookie, after)
  unfolding read_cookie
  cookie_lem inbound after cookie e = ground arith

  str_ne : (a b : String) → a ≢ b → str_eq a b ≡ false
  str_ne a b n = elim (Bool-cases (str_eq a b)) [
    | inl e ↦ absurd (n ((eq_iff a b).0 e))
    | inr e ↦ e
  ]

  authenticate-other :
      (cookie other : String) (inbound after : Socket env) (c : Server env queue)
      → read_cookie env inbound ≡ (ok other, after)
      → other ≢ cookie
      → authenticate env queue cookie inbound c ≡ turn_away env queue after c
  unfolding authenticate
  authenticate-other cookie other inbound after c e n = ground (arith, str_ne other cookie n)

  pub handle-streams :
      (cookie : String) (late : Bool) (inbound : Socket env) (c : Server env queue)
      → handle env queue (some (create_streams cookie)) late inbound c
        ≡ authenticate env queue cookie inbound c
  unfolding handle
  handle-streams cookie late inbound c = refl

  -- While the server waits for streams, a connection whose hello carries another cookie is sent
  -- one frame with the error that a test is in flight, and the loop goes on with nothing else
  -- changed: its stream does not reach the controller; JSON is lawful, texts within the limit, the
  -- socket open both ways.
  pub run_server-impostor :
      (d : Duplex transport) (hello denied sent rest : List ℕ) (cookie other : String) (late : Bool)
      (inbound : Socket env) (events : List (Event env queue)) (c : Server env queue)
      → c.in_flight ≡ some (create_streams cookie)
      → other ≢ cookie
      → IsJson ClientEnvelope client_json
      → Json.to_string client_json (ClientEnvelope.client_message (ClientMessage.hello other))
        ≡ some hello
      → Json.to_string server_json (ServerEnvelope.error (access_denied "Test already in-flight"))
        ≡ some denied
      → length hello ≤ max_control_message
      → length denied ≤ max_control_message
      → Holds transport d sent (frame hello ++ rest) inbound
      → TurnsAway d (sent ++ frame denied) rest late inbound events c
  unfolding server_send_error server_read_message
  run_server-impostor d hello denied sent rest cookie other late inbound events c f n j e₁ e₂ l₁ l₂
        h =
      let (s₁, got, h₁) = read_lem transport d client_json j _ hello sent rest inbound h e₁ l₁ in
      let (left, told, after) =
        send_lem transport d server_json _ denied sent rest s₁ h₁ e₂ (omega arith) in
      let read = cookie_lem inbound s₁ other (rw got refl) in
      record {
        left = left;
        goes_on = accept_step _ late inbound events c _ f (
            handle-streams cookie late inbound c
            ∙ authenticate-other cookie other inbound s₁ c read n
            ∙ turn_away_lem s₁ left c told);
        holds = after;
      }

  -- The loop goes on with the stream in the controller's channel, welcomed and read up to `pending`.
  pub record Joins (d : Duplex transport) (q : IsMpsc (ControllerMessage (Socket env)) queue)
      (sent pending : List ℕ) (late : Bool) (inbound : Socket env) (events : List (Event env queue))
      (channel : Mpsc.Channel queue) (c : Server env queue) : Type 0 where
    pub stream : Socket env
    pub next_channel : Mpsc.Channel queue
    pub goes_on :
        run_server env queue (accept inbound late ∷ events) c
        ≡ run_server env queue events (record c { controller_channel = some next_channel })
    pub waiting : q.waiting next_channel ≡ q.waiting channel ++ create_stream stream ∷ []
    pub holds : Holds transport d sent pending stream

  pub authenticate-same :
      (cookie : String) (inbound s₁ s₂ : Socket env) (channel : Mpsc.Channel queue)
      (c : Server env queue)
      → read_cookie env inbound ≡ (ok cookie, s₁)
      → server_send_message transport server_json ServerMessage.welcome s₁ ≡ (ok tt, s₂)
      → c.controller_channel ≡ some channel
      → (Mpsc.try_send queue (create_stream s₂) channel).0 ≡ true
      → authenticate env queue cookie inbound c ≡ (
        ok tt,
        record c { controller_channel = some (Mpsc.try_send queue (create_stream s₂) channel).1 },
      )
  unfolding authenticate
  authenticate-same cookie inbound s₁ s₂ channel c e f g t =
      ground (arith, (eq_iff cookie cookie).1 refl)

  -- While the server waits for streams, a connection whose hello carries the cookie of the test is
  -- welcomed by one frame and put at the end of the controller's channel, provided that this has
  -- room, and the loop goes on with nothing else changed; JSON is lawful, texts within the limit,
  -- the socket open both ways.
  pub run_server-Joins :
      (d : Duplex transport) (q : IsMpsc (ControllerMessage (Socket env)) queue)
      (hello welcome sent rest : List ℕ) (cookie : String) (late : Bool) (inbound : Socket env)
      (events : List (Event env queue)) (channel : Mpsc.Channel queue) (c : Server env queue)
      → c.in_flight ≡ some (create_streams cookie)
      → c.controller_channel ≡ some channel
      → length (q.waiting channel) < q.capacity channel
      → IsJson ClientEnvelope client_json
      → Json.to_string client_json (ClientEnvelope.client_message (ClientMessage.hello cookie))
        ≡ some hello
      → Json.to_string server_json (ServerEnvelope.server_message ServerMessage.welcome)
        ≡ some welcome
      → length hello ≤ max_control_message
      → length welcome ≤ max_control_message
      → Holds transport d sent (frame hello ++ rest) inbound
      → Joins d q (sent ++ frame welcome) rest late inbound events channel c
  unfolding server_send_message server_read_message
  run_server-Joins d q hello welcome sent rest cookie late inbound events channel c f g room j e₁ e₂
        l₁ l₂ h =
      let (s₁, got, h₁) = read_lem transport d client_json j _ hello sent rest inbound h e₁ l₁ in
      let (s₂, told, after) =
        send_lem transport d server_json _ welcome sent rest s₁ h₁ e₂ (omega arith) in
      let read = cookie_lem inbound s₁ cookie (rw got refl) in
      let (taken, all, _) = q.taken (create_stream s₂) channel room in
      record {
        stream = s₂;
        next_channel = (Mpsc.try_send queue (create_stream s₂) channel).1;
        goes_on = accept_step _ late inbound events c _ f (
            handle-streams cookie late inbound c
            ∙ authenticate-same cookie inbound s₁ s₂ channel c read told g taken);
        waiting = all;
        holds = after;
      }

  authenticate-failed :
      (cookie : String) (inbound s : Socket env) (c : Server env queue)
      → transport.read_u32 inbound ≡ (err io, s)
      → authenticate env queue cookie inbound c
        ≡ (err (message "Failed to finish initial negotiation"), c)
  unfolding authenticate read_cookie server_read_message read_control_message
  authenticate-failed cookie inbound s c e = ground arith

  -- While the server waits for streams, a connection that delivers fewer than four bytes before it
  -- ends stops the whole accept loop with an error, whatever connections come after it.
  pub run_server-closed :
      (r : Reads transport) (cookie : String) (late : Bool) (inbound : Socket env)
      (events : List (Event env queue)) (c : Server env queue)
      → c.in_flight ≡ some (create_streams cookie)
      → r.IsOpen inbound
      → length (r.pending inbound) < 4
      → run_server env queue (accept inbound late ∷ events) c
        ≡ (err (message "Failed to finish initial negotiation"), c)
  run_server-closed r cookie late inbound events c f o l =
      let (s, failed) = r.no_number inbound o l in
      accept_step _ late inbound events c _ f
        (handle-streams cookie late inbound c ∙ authenticate-failed cookie inbound s c failed)
