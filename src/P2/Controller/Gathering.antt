-- ===== src/P2/Controller/Gathering.antt =====
-- The rounds of a server that make up its streams and start the load.
use netperf.Prelude.{
  ℕ, zero, suc, ◌+◌, ◌≤◌, ◌<◌, ◌≡◌, refl, ap, sym, ◌∙◌, String, false, Option, none, some, List, [],
  ◌∷◌, ◌++◌, map, length, if◌then◌else◌, arith,
}
use netperf.Prelude.Dicts.{get, Unique, Numbered}
use netperf.P2.Data.{Role, server, client, max_control_message}
use netperf.P2.Control.{State, test_start, create_streams, running, ServerMessage, ServerEnvelope}
use netperf.P2.Result.{Result, ok, next}
use netperf.P2.Transport.{Duplex}
use netperf.P2.NetUtils.{server_send_message}
use netperf.P2.NetUtils.RoundTrip.{frame}
use netperf.P2.NetUtils.Both.{Holds, send_lem}
use netperf.P2.Runtime.{Runtime, WorkerMessage, start_load}
use netperf.P2.PerfTest.{StreamWorkerRef, set_state}
use netperf.P2.PerfTest.SetState.{set_state_sent}
use netperf.P2.Controller.{
  ControllerMessage, create_stream, again, wait, Socket, TestController,
  create_and_register_stream_worker, broadcast_to_streams, tell, total_needed_streams, is_running,
}
use netperf.P2.Controller.Registry.{IsReady, register_lem, accept_early, accept_last}
use netperf.P2.Controller.Run.{process_internal_message, act, act_on_state}
use netperf.P2.Controller.Loop.{Choice, internal, turn, run}
use netperf.P2.Controller.Loop.Receipt.{receive-internal}

Numbered-none {ℓ} :
    {V : Type ℓ} (i j : ℕ) (m : List (ℕ × V)) → Numbered i m → j < i → get j m ≡ none
Numbered-none i j [] n h = refl
Numbered-none i j ((k, v) ∷ m) n h = ground (arith, Numbered-none (suc i) j m n.1)

pub Numbered-Unique {ℓ} : {V : Type ℓ} (i : ℕ) (m : List (ℕ × V)) → Numbered i m → Unique m
Numbered-Unique i [] n = tt
Numbered-Unique i ((k, v) ∷ m) n =
    (Numbered-none (suc i) k m n.1 (omega (arith, n.0)), Numbered-Unique (suc i) m n.1)

module _ (env : Runtime) where
  open env use {transport, server_json, client_json}

  -- The connections as they reach the controller.
  abbrev pub connections : List (Socket env) → List (Choice (Socket env))
  connections [] = []
  connections (s ∷ ss) = internal (some (create_stream s)) 0 ∷ connections ss

  -- A worker for each of the connections, in their order.
  abbrev pub registered : List (Socket env) → TestController env → TestController env
  registered [] c = c
  registered (s ∷ ss) c = registered ss (create_and_register_stream_worker env s c)

  abbrev pub at_state : Socket env → State → TestController env → TestController env
  at_state u state c = record c { test = record c.test { control_socket = u; state = state } }

  -- What is registered does not depend on the control socket and the state.
  pub registered-at_state :
      (u : Socket env) (state : State) (ss : List (Socket env)) (c : TestController env)
      → registered ss (at_state u state c) ≡ at_state u state (registered ss c)
  unfolding create_and_register_stream_worker
  registered-at_state u state [] c = refl
  registered-at_state u state (s ∷ ss) c =
      registered-at_state u state ss (create_and_register_stream_worker env s c)

  pub registered-keeps :
      (ss : List (Socket env)) (c : TestController env)
      → ((registered ss c).test.role ≡ c.test.role)
        × ((registered ss c).stream_results ≡ c.stream_results)
  unfolding create_and_register_stream_worker
  registered-keeps [] c = (refl, refl)
  registered-keeps (s ∷ ss) c = registered-keeps ss (create_and_register_stream_worker env s c)

  pub registered-Numbered :
      (ss : List (Socket env)) (c : TestController env)
      → IsReady env c
      → Numbered 0 (registered ss c).test.streams
  registered-Numbered [] c h = h.numbered
  registered-Numbered (s ∷ ss) c h =
      registered-Numbered ss (create_and_register_stream_worker env s c) (register_lem env s c h).0

  tell-Numbered :
      (m : WorkerMessage) (i : ℕ) (l : List (ℕ × StreamWorkerRef env))
      → Numbered i l
      → Numbered i (map (tell env m) l)
  unfolding tell
  tell-Numbered m i [] n = tt
  tell-Numbered m i ((j, r) ∷ l) n = (n.0, tell-Numbered m (suc i) l n.1)

  pub broadcast-Numbered :
      (m : WorkerMessage) (c : TestController env)
      → Numbered 0 c.test.streams
      → Numbered 0 (broadcast_to_streams env m c).test.streams
  unfolding broadcast_to_streams
  broadcast-Numbered m c n = tell-Numbered m 0 c.test.streams n

  -- A round of a server that only waits, and then handles a message.
  run-served :
      (fuel : ℕ) (m : Option (ControllerMessage (Socket env))) (rest : List (Choice (Socket env)))
      (old : State) (c c' : TestController env)
      → c.test.role ≡ server
      → act_on_state env old c ≡ (ok wait, c)
      → process_internal_message env m c ≡ (ok tt, c')
      → run env (suc fuel) (internal m 0 ∷ rest) old c ≡ run env fuel rest c.test.state c'
  unfolding run
  run-served fuel m rest old c c' r a e =
      ap (λ x. next x (turn env (run env fuel) c.test.state old (internal m 0 ∷ rest))) a
      ∙ ap (λ x. next x (λ _ c₂. run env fuel rest c.test.state c₂))
          (receive-internal env m 0 c r ∙ e)

  -- The state before the last matters to a new round alone.
  turn-wait :
      (fuel : ℕ) (now old : State) (schedule : List (Choice (Socket env))) (c : TestController env)
      → turn env (run env fuel) now old schedule wait c
        ≡ turn env (run env fuel) now running schedule wait c
  turn-wait fuel now old [] c = refl
  turn-wait fuel now old (choice ∷ rest) c = refl

  act-running :
      (r : Role) (old : State) (c : TestController env)
      → c.test.role ≡ r
      → c.test.state ≡ running
      → act_on_state env old c
        ≡ (ok wait, if is_running old then c else broadcast_to_streams env start_load c)
  unfolding act_on_state act
  act-running server old c r s =
      ap (λ p. act env p c.test.state old c) r ∙ ap (λ t. act env server t old c) s
  act-running client old c r s =
      ap (λ p. act env p c.test.state old c) r ∙ ap (λ t. act env client t old c) s

  -- The round in which the load starts.
  pub run-loaded :
      (fuel : ℕ) (schedule : List (Choice (Socket env))) (old : State) (c : TestController env)
      → c.test.state ≡ running
      → is_running old ≡ false
      → run env (suc fuel) schedule old c
        ≡ run env (suc fuel) schedule running (broadcast_to_streams env start_load c)
  unfolding run act_on_state act broadcast_to_streams
  run-loaded fuel schedule old c s o =
      let loaded = broadcast_to_streams env start_load c in
      ap (λ x. next x (turn env (run env fuel) c.test.state old schedule))
        (act-running c.test.role old c refl s ∙ ap (λ b. (ok wait, if b then c else loaded)) o)
      ∙ turn-wait fuel c.test.state old schedule loaded
      ∙ ap (λ x. next x (turn env (run env fuel) c.test.state running schedule))
          (sym (act-running c.test.role running loaded refl s))

  -- The first round: the client is told to connect its streams.
  pub run-begun :
      (fuel : ℕ) (schedule : List (Choice (Socket env))) (old : State) (u : Socket env)
      (c : TestController env)
      → c.test.role ≡ server
      → c.test.state ≡ test_start
      → set_state env (create_streams c.test.cookie) c.test
        ≡ (ok tt, (at_state u (create_streams c.test.cookie) c).test)
      → run env (suc fuel) schedule old c
        ≡ run env fuel schedule old (at_state u (create_streams c.test.cookie) c)
  unfolding run act_on_state act
  run-begun fuel schedule old u c r s e =
      ap
        (λ p.
          next (act env p c.test.state old c) (turn env (run env fuel) c.test.state old schedule))
        r
      ∙ ap (λ t. next (act env server t old c) (turn env (run env fuel) t old schedule)) s
      ∙ ap
          (λ x.
            next (next (x.0, record c { test = x.1 }) (λ _ c'. (ok again, c')))
              (turn env (run env fuel) test_start old schedule))
          e

  gathering :
      (k : String) (old : State) (c : TestController env)
      → c.test.role ≡ server
      → c.test.state ≡ create_streams k
      → act_on_state env old c ≡ (ok wait, c)
  unfolding act_on_state act
  gathering k old c r s =
      ap (λ p. act env p c.test.state old c) r ∙ ap (λ t. act env server t old c) s

  -- The connections are accepted, and with the last of them the client is told that the load starts.
  module _ (d : Duplex transport) (k : String) (started sent pending : List ℕ)
      (started_text : server_json.to_string
          (ServerEnvelope.server_message (ServerMessage.set_state running))
        ≡ some started)
      (started_fits : length started ≤ max_control_message) where
    pub record IsGathered (fuel : ℕ) (ss : List (Socket env)) (rest : List (Choice (Socket env)))
        (c : TestController env) (x : Result (Unit {0}) × TestController env) : Type 0 where
      pub socket : Socket env
      pub holds : Holds transport d (sent ++ frame started) pending socket
      pub result :
          x ≡ run env fuel rest (create_streams k) (at_state socket running (registered ss c))

    accepted_last :
        (fuel : ℕ) (s : Socket env) (rest : List (Choice (Socket env))) (old : State)
        (c : TestController env)
        → IsReady env c
        → c.test.state ≡ create_streams k
        → suc (length c.test.streams) ≡ total_needed_streams env c.test
        → Holds transport d sent pending c.test.control_socket
        → IsGathered fuel (s ∷ []) rest c (run env (suc fuel) (connections (s ∷ []) ++ rest) old c)
    unfolding server_send_message process_internal_message create_and_register_stream_worker
    accepted_last fuel s rest old c h e n hold =
        let c' = create_and_register_stream_worker env s c in
        let (u, done, hold') =
          send_lem transport d server_json _ started sent pending c.test.control_socket hold
            started_text (omega arith) in
        let set = set_state_sent env running c'.test u h.role done in
        let told = accept_last env s c h n ∙ ap (λ x. (x.0, record c' { test = x.1 })) set in
        record {
          socket = u;
          holds = hold';
          result =
              run-served fuel (some (create_stream s)) rest old c _ h.role
                (gathering k old c h.role e) told
              ∙ ap (λ st. run env fuel rest st (at_state u running c')) e;
        }

    pub gathered :
        (fuel f : ℕ) (s : Socket env) (ss : List (Socket env)) (rest : List (Choice (Socket env)))
        (old : State) (c : TestController env)
        → suc (length ss) + f ≡ fuel
        → IsReady env c
        → c.test.state ≡ create_streams k
        → length c.test.streams + suc (length ss) ≡ total_needed_streams env c.test
        → Holds transport d sent pending c.test.control_socket
        → IsGathered f (s ∷ ss) rest c (run env fuel (connections (s ∷ ss) ++ rest) old c)
    unfolding process_internal_message create_and_register_stream_worker
    gathered zero f s ss rest old c b h e n hold = absurd (omega arith)
    gathered (suc fuel) f s [] rest old c b h e n hold =
        let x = accepted_last fuel s rest old c h e (omega arith) hold in
        record {
          socket = x.socket;
          holds = x.holds;
          result =
              x.result
              ∙ ap
                  (λ g.
                    run env g rest (create_streams k)
                      (at_state x.socket running (registered (s ∷ []) c)))
                  (omega arith);
        }
    gathered (suc fuel) f s (t ∷ ss) rest old c b h e n hold =
        let c' = create_and_register_stream_worker env s c in
        let (ready, longer) = register_lem env s c h in
        let y =
          gathered fuel f t ss rest (create_streams k) c' (omega arith) ready e (omega arith)
            hold in
        record {
          socket = y.socket;
          holds = y.holds;
          result =
              run-served fuel (some (create_stream s)) (connections (t ∷ ss) ++ rest) old c c'
                h.role (gathering k old c h.role e) (accept_early env s c h (λ q. omega arith))
              ∙ ap (λ st. run env fuel (connections (t ∷ ss) ++ rest) st c') e
              ∙ y.result;
        }
