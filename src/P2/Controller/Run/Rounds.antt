-- ===== src/P2/Controller/Run/Rounds.antt =====
-- The head of a round of the loop on a server, as steps of the protocol.
use netperf.Prelude.{
  ℕ, ◌≡◌, ◌≢◌, refl, ap, sym, subst, String, true, Bool-cases, inl, inr, map, length, length-map,
}
use netperf.Core.Stats.{TestResults}
use netperf.P2.Data.{Role, server, client}
use netperf.P2.Control.{
  State, test_start, create_streams, running, exchange_results, display_results, ClientMessage,
  ServerMessage,
}
use netperf.P2.Result.{Result, ok, err, panic, diverged, next}
use netperf.P2.NetUtils.{
  client_send_message, client_read_message, server_send_message, server_read_message,
}
use netperf.P2.Runtime.{Runtime, start_load, terminate}
use netperf.P2.PerfTest.{set_state}
use netperf.P2.Controller.{
  Flow, again, wait, stop, Socket, TestController, broadcast_to_streams, tell, on_test, on_control,
  is_running,
}
use netperf.P2.Controller.Run.{
  act, act_on_state, finish, collect, results_of_server, results_of_client, exchange_with_peer,
  exchange_as, collect_test_result,
}
use netperf.P2.Controller.Run.Stages.{
  next_keeps, IsServerOf, IsReached, moved, set_state-IsReached, view,
}
use netperf.P2.Controller.Protocol.{View, is_open, at, Step, begins, finishes, Reach}

-- A call that ends well in one way ends in no other.
pub next_flow {ℓ} :
    {S : Type ℓ} {A : Type 0} (x : Result A × S) (f : A → S → Result Flow × S) (flow other : Flow)
    → ((a : A) (s : S) → (f a s).0 ≡ ok flow)
    → flow ≢ other
    → (next x f).0 ≢ ok other
next_flow (ok a, s) f flow other h n = λ e. let g = h a s in n cc
next_flow (err _, s) f flow other h n = λ e. cc
next_flow (panic, s) f flow other h n = λ e. cc
next_flow (diverged, s) f flow other h n = λ e. cc

-- The exchange of the results is no wait and no new round.
pub finish_flow :
    (env : Runtime) (c : TestController env) (other : Flow)
    → stop ≢ other
    → (finish env c).0 ≢ ok other
unfolding finish
finish_flow env c other n =
    let (local, c₁) = collect_test_result env (broadcast_to_streams env terminate c) in
    next_flow (exchange_with_peer env local c₁) _ stop other (λ a s. refl) n

-- The exchange of the results reads and writes on the control socket alone.
module _ {κ} (env : Runtime) (P : TestController env → Type κ)
    (socket_keeps : (s : Socket env) (c : TestController env)
      → P c
      → P (record c { test = record c.test { control_socket = s } })) where
  open env use {transport, server_json, client_json}

  twice_keeps :
      {A B C : Type 0} (f : Socket env → Result A × Socket env)
      (g : A → Socket env → Result B × Socket env) (h : A → B → Result C) (c : TestController env)
      → P c
      → P
          (next
            (on_control env f c)
            (λ a c₁. next (on_control env (g a) c₁) (λ b c₂. (h a b, c₂)))).1
  twice_keeps f g h c d =
      next_keeps P P (on_control env f c) _ (λ c₁ d₁. d₁)
        (λ a c₁ d₁.
          next_keeps P P (on_control env (g a) c₁) _ (λ c₂ d₂. d₂) (λ b c₂ d₂. d₂)
            (socket_keeps (g a c₁.test.control_socket).1 c₁ d₁))
        (socket_keeps (f c.test.control_socket).1 c d)

  exchange_as_keeps :
      (r : Role) (local : TestResults) (c : TestController env)
      → P c
      → P (exchange_as env r local c).1
  unfolding exchange_as
  exchange_as_keeps client local c d =
      twice_keeps (client_send_message transport client_json (ClientMessage.send_results local))
        (λ _. client_read_message transport server_json) (λ _. results_of_server env) c d
  exchange_as_keeps server local c d =
      twice_keeps (server_read_message transport client_json)
        (λ _. server_send_message transport server_json (ServerMessage.send_results local))
        (λ m _. results_of_client env m) c d

  pub exchange_with_peer_keeps :
      (local : TestResults) (c : TestController env) → P c → P (exchange_with_peer env local c).1
  unfolding exchange_with_peer
  exchange_with_peer_keeps local c d = exchange_as_keeps c.test.role local c d

module _ (env : Runtime) (cookie : String) (total : ℕ) (v : View) (k : ℕ) where
  open env use {transport, server_json, client_json}

  -- Behind the exchange of the results.
  record IsDone (c : TestController env) : Type 0 where
    reached : IsReached env cookie total v k c
    over : view env cookie total c ≡ at exchange_results 0

  socket-IsDone :
      (s : Socket env) (c : TestController env)
      → IsDone c
      → IsDone (record c { test = record c.test { control_socket = s } })
  socket-IsDone s c d =
      let of = d.reached.of in
      record {
        reached = record {
          of = record { role = of.role; cookie_of = of.cookie_of; total_of = of.total_of };
          path = d.reached.path;
        };
        over = d.over;
      }

  finish-IsDone :
      (c : TestController env)
      → IsReached env cookie total v k c
      → c.test.state ≡ exchange_results
      → IsDone (finish env c).1
  unfolding finish collect_test_result broadcast_to_streams exchange_with_peer
  finish-IsDone c h e =
      let local : TestResults = record {
        streams = collect env (map (tell env terminate) c.test.streams) c.stream_results;
      } in
      let c₁ = (collect_test_result env (broadcast_to_streams env terminate c)).1 in
      let o : IsServerOf env cookie total c₁.test = record {
        role = h.of.role;
        cookie_of = h.of.cookie_of;
        total_of = h.of.total_of;
      } in
      let n = length c.test.streams in
      let step =
        subst (λ s. Step cookie total (at s n) (at exchange_results 0)) (sym e) (finishes n) in
      let there =
        moved env cookie total v k c c₁ (at exchange_results 0) h o step
          (ap (λ s. at s 0) (sym e)) in
      next_keeps IsDone IsDone (exchange_with_peer env local c₁) _ (λ c₂ d. d)
        (λ remote c₂ d. record {
          reached = record { of = d.reached.of; path = d.reached.path };
          over = d.over;
        })
        (exchange_with_peer_keeps env IsDone socket-IsDone local c₁
          (record { reached = there; over = ap (λ s. at s 0) e }))

  -- What the head of a round of the loop leaves behind, in each of its outcomes.
  pub record IsActed (r : Result Flow) (c : TestController env) : Type 0 where
    pub reached : IsReached env cookie total v k c
    pub waits : r ≡ ok wait → is_open c.test.state ≡ true
    pub stops : r ≡ ok stop → view env cookie total c ≡ at exchange_results 0

  act-IsActed :
      (r : Role) (st old : State) (c : TestController env)
      → r ≡ server
      → c.test.state ≡ st
      → st ≢ display_results
      → IsReached env cookie total v k c
      → IsActed (act env r st old c).0 (act env r st old c).1
  unfolding act broadcast_to_streams
  act-IsActed client st old c e f n h = cc
  act-IsActed server test_start old c e f n h =
      let x = on_test env (set_state env (create_streams c.test.cookie)) c in
      let go : TestController env → Result Flow × TestController env = λ c'. (ok again, c') in
      let n = length c.test.streams in
      let step =
        subst (λ k. Step cookie total (view env cookie total c) (at (create_streams k) n))
          (sym h.of.cookie_of)
          (subst (λ s. Step cookie total (at s n) (at (create_streams cookie) n)) (sym f)
            (begins n)) in
      let told = set_state-IsReached env cookie total v k (create_streams c.test.cookie) c h step in
      record {
        reached =
            next_keeps (IsReached env cookie total v k) (IsReached env cookie total v k) x (λ _. go)
              (λ c₁ r. r) (λ _ c₁ r. r) told;
        waits = λ g. absurd (next_flow x (λ _. go) again wait (λ a s. refl) (λ q. cc) g);
        stops = λ g. absurd (next_flow x (λ _. go) again stop (λ a s. refl) (λ q. cc) g);
      }
  act-IsActed server (create_streams key) old c e f n h = record {
    reached = h;
    waits = λ _. ap is_open f;
    stops = λ g. cc;
  }
  act-IsActed server running old c e f n h =
      let o = h.of in
      let same = length-map c.test.streams (tell env start_load) in
      let told : IsReached env cookie total v k (broadcast_to_streams env start_load c) = record {
        of = record { role = o.role; cookie_of = o.cookie_of; total_of = o.total_of };
        path = subst (λ n. Reach cookie total v k (at c.test.state n)) (sym same) h.path;
      } in
      elim (Bool-cases (is_running old)) [
        | inl q ↦ rw q (record { reached = h; waits = λ _. ap is_open f; stops = λ g. cc })
        | inr q ↦ rw q (record { reached = told; waits = λ _. ap is_open f; stops = λ g. cc })
      ]
  act-IsActed server exchange_results old c e f n h =
      let d = finish-IsDone c h f in
      let ends = finish_flow env c wait (λ e. cc) in
      record { reached = d.reached; waits = λ g. absurd (ends g); stops = λ _. d.over }
  act-IsActed server display_results old c e f n h = absurd (n refl)

  pub act_on_state-IsActed :
      (old : State) (c : TestController env)
      → IsReached env cookie total v k c
      → c.test.state ≢ display_results
      → IsActed (act_on_state env old c).0 (act_on_state env old c).1
  unfolding act_on_state
  act_on_state-IsActed old c h n = act-IsActed c.test.role c.test.state old c h.of.role refl n h
