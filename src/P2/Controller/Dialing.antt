-- ===== src/P2/Controller/Dialing.antt =====
-- A client connects all streams of a test.
use netperf.Prelude.{
  ℕ, zero, suc, ◌+◌, ◌≤◌, ◌<◌, ◌≡◌, refl, ap, ◌∙◌, String, some, List, [], ◌++◌, length,
  if◌then◌else◌, arith,
}
use netperf.Prelude.Dicts.{Numbered}
use netperf.P2.Data.{client, max_control_message}
use netperf.P2.Control.{ClientMessage, ServerMessage, ClientEnvelope, ServerEnvelope}
use netperf.P2.Result.{Result, ok, panic}
use netperf.P2.Transport.{IsJson, Duplex}
use netperf.P2.NetUtils.{client_send_message, client_read_message}
use netperf.P2.NetUtils.RoundTrip.{frame}
use netperf.P2.NetUtils.Both.{Holds, send_lem, read_lem}
use netperf.P2.Runtime.{Runtime}
use netperf.P2.Controller.{
  TestController, Socket, greet, greeted, connect_data_stream, create_and_register_stream_worker,
  create_loop, create_streams_on_client, total_needed_streams, is_server,
}
use netperf.P2.Controller.Joining.{
  register_next, register_keeps, create_loop-done, create_loop-more,
}

module _ (env : Runtime) (d : Duplex (Runtime.transport env)) where
  open env use {transport, server_json, client_json, connect}

  -- The k-th stream can be connected, and a welcome arrives on it.
  pub record IsServed (address : String) (welcome : List ℕ) (k : ℕ) : Type 0 where
    pub raw : Socket env
    pub sent : List ℕ
    pub rest : List ℕ
    pub connects : connect address (suc k) ≡ ok raw
    pub holds : Holds transport d sent (frame welcome ++ rest) raw

  -- The call ends well with `total` numbered streams, and nothing else of the test has changed.
  pub record IsConnected (total : ℕ) (c : TestController env)
      (r : Result (Unit {0}) × TestController env) : Type 0 where
    pub after : TestController env
    pub result : r ≡ (ok tt, after)
    pub all_streams : length after.test.streams ≡ total
    pub numbered : Numbered 0 after.test.streams
    pub same_state : after.test.state ≡ c.test.state
    pub same_socket : after.test.control_socket ≡ c.test.control_socket

  module _ (is_server_json : IsJson ServerEnvelope server_json) (cookie address : String)
      (hello welcome : List ℕ)
      (hello_text : client_json.to_string
          (ClientEnvelope.client_message (ClientMessage.hello cookie))
        ≡ some hello)
      (welcome_text : server_json.to_string (ServerEnvelope.server_message ServerMessage.welcome)
        ≡ some welcome)
      (hello_fits : length hello ≤ max_control_message)
      (welcome_fits : length welcome ≤ max_control_message) where
    greet_lem :
        (s : Socket env) (sent rest : List ℕ)
        → Holds transport d sent (frame welcome ++ rest) s
        → (s' : Socket env) × (greet env cookie s ≡ ok s')
    unfolding greet client_send_message client_read_message
    greet_lem s sent rest h =
        let (s₁, told, h₁) =
          send_lem transport d client_json _ hello sent _ s h hello_text (omega arith) in
        let (s₂, got, _) =
          read_lem transport d server_json is_server_json _ welcome _ rest s₁ h₁ welcome_text
            welcome_fits in
        (s₂, rw (told, got) refl)

    connect_lem :
        (c : TestController env)
        → c.test.cookie ≡ cookie
        → c.test.client_address ≡ some address
        → IsServed address welcome (length c.test.streams)
        → (s : Socket env) × (connect_data_stream env c ≡ ok s)
    unfolding connect_data_stream
    connect_lem c e f v =
        let (s, greeted) = greet_lem v.raw v.sent v.rest v.holds in
        (s, ground (arith, v.connects, ap (λ k. greet env k v.raw) e ∙ greeted))

    create_loop-IsConnected :
        (fuel total : ℕ) (c : TestController env)
        → length c.test.streams + fuel ≡ total
        → Numbered 0 c.test.streams
        → c.test.cookie ≡ cookie
        → c.test.client_address ≡ some address
        → ((k : ℕ) → k < total → IsServed address welcome k)
        → IsConnected total c (create_loop env fuel total c)
    create_loop-IsConnected zero total c l n e f v = record {
      after = c;
      result = create_loop-done env total c (omega arith);
      all_streams = omega arith;
      numbered = n;
      same_state = refl;
      same_socket = refl;
    }
    create_loop-IsConnected (suc fuel) total c l n e f v =
        let (s, connected) = connect_lem c e f (v (length c.test.streams) (omega arith)) in
        let c' = create_and_register_stream_worker env s c in
        let (numbered, longer) = register_next env s c n in
        let (state, socket, same_cookie, same_address) = register_keeps env s c in
        let rest =
          create_loop-IsConnected fuel total c' (omega arith) numbered (same_cookie ∙ e)
            (same_address ∙ f) v in
        record {
          after = rest.after;
          result = create_loop-more env fuel total s c (omega arith) connected ∙ rest.result;
          all_streams = rest.all_streams;
          numbered = rest.numbered;
          same_state = rest.same_state ∙ state;
          same_socket = rest.same_socket ∙ socket;
        }

    -- On a client with an address and no streams yet, if each of the connections that the test
    -- needs can be made, is open both ways and delivers the frame of a welcome, with JSON lawful
    -- and the texts within the limit, then `create_streams` ends with ok and as many streams
    -- registered as the test needs, numbered from 0 in order, and the state and the control socket
    -- of the test are the same as before.
    create_streams_on_client-IsConnected :
        (c : TestController env)
        → c.test.role ≡ client
        → c.test.cookie ≡ cookie
        → c.test.client_address ≡ some address
        → c.test.streams ≡ []
        → ((k : ℕ) → k < total_needed_streams env c.test → IsServed address welcome k)
        → IsConnected (total_needed_streams env c.test) c (create_streams_on_client env c)
    unfolding create_streams_on_client
    create_streams_on_client-IsConnected c r e f n v =
        let total = total_needed_streams env c.test in
        let loop =
          create_loop-IsConnected total total c (omega (arith, ap length n)) (rw n tt) e f v in
        record {
          after = loop.after;
          result =
              ap (λ b. if b then (panic, c) else create_loop env total total c) (ap is_server r)
              ∙ loop.result;
          all_streams = loop.all_streams;
          numbered = loop.numbered;
          same_state = loop.same_state;
          same_socket = loop.same_socket;
        }
