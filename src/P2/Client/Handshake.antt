-- ===== src/P2/Client/Handshake.antt =====
-- The negotiation of the two sides: what each sends is what the other takes.
use netperf.Prelude.{
  ℕ, ◌≤◌, ◌≡◌, refl, ap, ◌∙◌, String, false, none, some, List, ◌++◌, length, arith,
}
use netperf.P2.Data.{
  client, server, max_control_message, TestParameters, ClientOpts, from_opts, default_block_size,
}
use netperf.P2.Control.{ClientMessage, ServerMessage, ClientEnvelope, ServerEnvelope}
use netperf.P2.Result.{ok, next}
use netperf.P2.Transport.{IsJson, Duplex}
use netperf.P2.Runtime.{Runtime}
use netperf.P2.NetUtils.{
  client_send_message, server_send_message, client_read_message, server_read_message,
}
use netperf.P2.NetUtils.RoundTrip.{frame}
use netperf.P2.NetUtils.Both.{Holds, send_lem, read_lem}
use netperf.P2.PerfTest.{new}
use netperf.P2.Controller.{Socket}
use netperf.P2.Controller.Registry.{Paired}
use netperf.P2.Server.{create_test}
use netperf.P2.Client.{negotiate, start, run_client}

module _ (env : Runtime) (d : Duplex (Runtime.transport env)) where
  open env use {transport, server_json, client_json}

  -- The texts of the three messages, within the limit.
  pub record Texts (cookie : String) (params : TestParameters) (hello welcome parameters : List ℕ)
      : Type 0 where
    pub is_server_json : IsJson ServerEnvelope server_json
    pub is_client_json : IsJson ClientEnvelope client_json
    pub hello_text :
        client_json.to_string (ClientEnvelope.client_message (ClientMessage.hello cookie))
        ≡ some hello
    pub welcome_text :
        server_json.to_string (ServerEnvelope.server_message ServerMessage.welcome) ≡ some welcome
    pub parameters_text :
        client_json.to_string (ClientEnvelope.client_message (ClientMessage.send_parameters params))
        ≡ some parameters
    pub hello_fits : length hello ≤ max_control_message
    pub welcome_fits : length welcome ≤ max_control_message
    pub parameters_fits : length parameters ≤ max_control_message

  -- Both sides are through, each has sent what the other took, and their tests are a pair.
  pub record Agrees (cookie address : String) (params : TestParameters)
      (hello welcome parameters sent_c sent_s rest_c rest_s : List ℕ) (c s : Socket env)
      : Type 0 where
    pub after_c : Socket env
    pub after_s : Socket env
    pub client_done : negotiate env cookie params c ≡ (ok tt, after_c)
    pub server_done :
        create_test env false s ≡ (ok (new env none cookie after_s server params), after_s)
    pub client_holds : Holds transport d (sent_c ++ frame hello ++ frame parameters) rest_c after_c
    pub server_holds : Holds transport d (sent_s ++ frame welcome) rest_s after_s
    pub paired :
        Paired env
          (new env (some address) cookie after_c client params)
          (new env none cookie after_s server params)

  new-Paired :
      (cookie address : String) (params : TestParameters) (c s : Socket env)
      → Paired env
          (new env (some address) cookie c client params)
          (new env none cookie s server params)
  unfolding new
  new-Paired cookie address params c s = record {
    p_role = refl;
    q_role = refl;
    same_direction = refl;
    same_parallel = refl;
    p_counts = record { send = refl; receive = refl };
    q_counts = record { send = refl; receive = refl };
    same_length = refl;
  }

  -- If JSON is lawful and the texts of the three messages are within the limit, the welcome is
  -- what arrives at the client, and the hello and the parameters are what arrives at the server,
  -- both sockets open both ways and the timer not first, then the negotiation ends well on both
  -- sides, each side has sent exactly the frames that the other took and left what follows unread,
  -- and the two tests are a pair: opposite roles, the same direction and number of streams, the
  -- counts of `PerfTest::new`.
  pub create_test-negotiate :
      (cookie address : String) (params : TestParameters)
      (hello welcome parameters sent_c sent_s rest_c rest_s : List ℕ) (c s : Socket env)
      → Texts cookie params hello welcome parameters
      → Holds transport d sent_c (frame welcome ++ rest_c) c
      → Holds transport d sent_s (frame hello ++ (frame parameters ++ rest_s)) s
      → Agrees cookie address params hello welcome parameters sent_c sent_s rest_c rest_s c s
  unfolding negotiate create_test client_send_message server_send_message client_read_message
      server_read_message
  create_test-negotiate cookie address params hello welcome parameters sent_c sent_s rest_c rest_s c
        s x hc hs =
      let (c₁, c_hello, hc₁) =
        send_lem transport d client_json _ hello sent_c _ c hc x.hello_text
          (omega (arith, x.hello_fits)) in
      let (c₂, c_welcome, hc₂) =
        read_lem transport d server_json x.is_server_json _ welcome _ rest_c c₁ hc₁ x.welcome_text
          x.welcome_fits in
      let (c₃, c_params, hc₃) =
        send_lem transport d client_json _ parameters _ rest_c c₂ hc₂ x.parameters_text
          (omega (arith, x.parameters_fits)) in
      let (s₁, s_hello, hs₁) =
        read_lem transport d client_json x.is_client_json _ hello sent_s _ s hs x.hello_text
          x.hello_fits in
      let (s₂, s_welcome, hs₂) =
        send_lem transport d server_json _ welcome sent_s _ s₁ hs₁ x.welcome_text
          (omega (arith, x.welcome_fits)) in
      let (s₃, s_params, hs₃) =
        read_lem transport d client_json x.is_client_json _ parameters _ rest_s s₂ hs₂
          x.parameters_text x.parameters_fits in
      record {
        after_c = c₃;
        after_s = s₃;
        client_done = rw (c_hello, c_welcome, c_params) refl;
        server_done = rw (s_hello, s_welcome, s_params) refl;
        client_holds = hc₃;
        server_holds = hs₃;
        paired = new-Paired cookie address params c₃ s₃;
      }

  -- A client that is connected and through with the negotiation starts its test.
  pub run_client-created :
      (address cookie version : String) (opts : ClientOpts) (c after : Socket env)
      → Runtime.connect env address 0 ≡ ok c
      → negotiate env cookie (from_opts version opts default_block_size) c ≡ (ok tt, after)
      → run_client env address cookie version opts
        ≡ ok
            (new env (some address) cookie after client (from_opts version opts default_block_size))
  unfolding run_client start
  run_client-created address cookie version opts c after e f =
      ap (start env address cookie (from_opts version opts default_block_size)) e
      ∙ ap
          (λ x.
            (next x (λ _ s. (
              ok (
                  new env (some address) cookie s client
                    (from_opts version opts default_block_size)),
              s,
            ))).0)
          f
