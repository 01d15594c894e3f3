-- ===== src/P2/Controller/Registry.antt =====
-- The registration of data streams: numbering, roles, and the switch to `Running`.
use netperf.Prelude.{
  ℕ, suc, ◌+◌, ◌*◌, ◌^◌, ◌≤◌, ◌<◌, ◌≡◌, ◌≢◌, refl, true, not, List, [], ◌∷◌, ◌++◌, length, some,
  length-append, ap, ◌∙◌, arith,
}
use netperf.Prelude.Dicts.{Numbered, insert-Numbered}
use netperf.Core.Stats.{bidirectional}
use netperf.P2.Data.{server, client}
use netperf.P2.Result.{Result, ok, next}
use netperf.P2.Control.{running, ServerEnvelope, ServerMessage}
use netperf.P2.Transport.{Writes, Json}
use netperf.P2.NetUtils.RoundTrip.{frame}
use netperf.P2.PerfTest.SetState.{set_state-server}
use netperf.P2.PerfTest.{set_state, PerfTest, stream_counts}
use netperf.P2.Runtime.{Runtime}
use netperf.P2.Controller.{
  total_needed_streams, next_is_sending, next_ref, create_and_register_stream_worker, accept_stream,
  on_test, TestController, Socket,
}

module _ (env : Runtime) where
  -- A test whose counts are those that `PerfTest::new` gives it.
  pub record HasCounts (p : PerfTest env) : Type 0 where
    pub send : p.num_send_streams ≡ (stream_counts p.role p.params.direction p.params.parallel).0
    pub receive :
        p.num_receive_streams ≡ (stream_counts p.role p.params.direction p.params.parallel).1

  -- The two sides of one test, with equally many streams registered.
  pub record Paired (p q : PerfTest env) : Type 0 where
    pub p_role : p.role ≡ client
    pub q_role : q.role ≡ server
    pub same_direction : p.params.direction ≡ q.params.direction
    pub same_parallel : p.params.parallel ≡ q.params.parallel
    pub p_counts : HasCounts p
    pub q_counts : HasCounts q
    pub same_length : length p.streams ≡ length q.streams

  -- If a client and a server run the same test with the counts of `PerfTest::new`, have equally
  -- many streams registered and need one more, and twice `parallel` fits 16 bits, then exactly one
  -- of the two sends on the next stream, and both need the same number of streams.
  pub next_is_sending-complement :
      (p q : PerfTest env)
      → Paired p q
      → 2 * p.params.parallel < 2 ^ 16
      → length p.streams < total_needed_streams env p
      → (next_is_sending env q ≡ not (next_is_sending env p))
        × (total_needed_streams env q ≡ total_needed_streams env p)
  next_is_sending-complement p q h f l = ground arith

  -- For a client of a bidirectional test with the counts of `PerfTest::new` and `parallel` from
  -- 2^15 to 2^16 - 1, the number of streams needed is 2^16 less than twice `parallel`, and as long
  -- as fewer are registered the next one sends.
  pub total_needed_streams-wraps :
      (p : PerfTest env)
      → HasCounts p
      → p.role ≡ client
      → p.params.direction ≡ bidirectional
      → 2 ^ 15 ≤ p.params.parallel
      → p.params.parallel < 2 ^ 16
      → length p.streams < total_needed_streams env p
      → (total_needed_streams env p + 2 ^ 16 ≡ 2 * p.params.parallel)
        × (next_is_sending env p ≡ true)
  total_needed_streams-wraps p h r d lo hi l = ground arith

  pub record IsReady (c : TestController env) : Type 0 where
    pub role : c.test.role ≡ server
    pub numbered : Numbered 0 c.test.streams

  pub register_lem :
      (s : Socket env) (c : TestController env)
      → IsReady c
      → IsReady (create_and_register_stream_worker env s c)
        × (length (create_and_register_stream_worker env s c).test.streams
            ≡ suc (length c.test.streams))
  unfolding create_and_register_stream_worker
  register_lem s c h =
      let k = length c.test.streams in
      let worker_ref = next_ref env s c.test in
      let (at_end, numbered) =
        insert-Numbered 0 k worker_ref c.test.streams (omega arith) h.numbered in
      let longer = ap length at_end ∙ length-append c.test.streams ((k, worker_ref) ∷ []) in
      (record { role = h.role; numbered = numbered }, omega arith)

  pub accept_early :
      (s : Socket env) (c : TestController env)
      → IsReady c
      → suc (length c.test.streams) ≢ total_needed_streams env c.test
      → accept_stream env s c ≡ (ok tt, create_and_register_stream_worker env s c)
  unfolding accept_stream
  accept_early s c h n = ground (arith, (register_lem s c h).1)

  pub accept_last :
      (s : Socket env) (c : TestController env)
      → IsReady c
      → suc (length c.test.streams) ≡ total_needed_streams env c.test
      → accept_stream env s c
        ≡ on_test env (set_state env running) (create_and_register_stream_worker env s c)
  unfolding accept_stream
  accept_last s c h n = ground (arith, (register_lem s c h).1)

  -- The connections of a test one after the other.
  abbrev pub accept_all :
      List (Socket env) → TestController env → Result (Unit {0}) × TestController env
  accept_all [] c = (ok tt, c)
  accept_all (s ∷ ss) c = next (accept_stream env s c) (λ _ c'. accept_all ss c')

  -- After `ss`, which are too few, the controller `d` differs from `c` by the streams alone.
  pub record Accepts (ss : List (Socket env)) (c d : TestController env) : Type 0 where
    pub result : accept_all ss c ≡ (ok tt, d)
    pub ready : IsReady d
    pub same_state : d.test.state ≡ c.test.state
    pub same_socket : d.test.control_socket ≡ c.test.control_socket
    pub same_total : total_needed_streams env d.test ≡ total_needed_streams env c.test
    pub more : length d.test.streams ≡ length c.test.streams + length ss

  register_keeps :
      (s : Socket env) (c : TestController env)
      → let c' = create_and_register_stream_worker env s c in
        (c'.test.state ≡ c.test.state)
        × (c'.test.control_socket ≡ c.test.control_socket)
        × (total_needed_streams env c'.test ≡ total_needed_streams env c.test)
  unfolding create_and_register_stream_worker
  register_keeps s c = (refl, refl, refl)

  accept_all-early :
      (ss : List (Socket env)) (c : TestController env)
      → IsReady c
      → length c.test.streams + length ss < total_needed_streams env c.test
      → (d : TestController env) × Accepts ss c d
  accept_all-early [] c h l = (
    c,
    record {
      result = refl;
      ready = h;
      same_state = refl;
      same_socket = refl;
      same_total = refl;
      more = omega arith;
    },
  )
  accept_all-early (s ∷ ss) c h l =
      let c' = create_and_register_stream_worker env s c in
      let (ready, longer) = register_lem s c h in
      let (state, socket, total) = register_keeps s c in
      let (d, rest) = accept_all-early ss c' ready (omega arith) in
      (
        d,
        record {
          result = rw (accept_early s c h (λ e. omega arith)) rest.result;
          ready = rest.ready;
          same_state = rest.same_state ∙ state;
          same_socket = rest.same_socket ∙ socket;
          same_total = rest.same_total ∙ total;
          more = omega (arith, rest.more);
        },
      )

  -- What the last connection does: `Running`, told to the client by the frame of `payload`.
  pub record Starts (w : Writes (Runtime.transport env)) (payload : List ℕ) (ss : List (Socket env))
      (s : Socket env) (c : TestController env) : Type 0 where
    pub before : TestController env
    pub after : TestController env
    pub early : Accepts ss c before
    pub last : accept_stream env s before ≡ (ok tt, after)
    pub is_running : after.test.state ≡ running
    pub all_streams : length after.test.streams ≡ total_needed_streams env c.test
    pub numbered : Numbered 0 after.test.streams
    pub told : w.sent after.test.control_socket ≡ w.sent c.test.control_socket ++ frame payload

  -- On a server with streams numbered from 0, if the connections `ss` and one more make up the
  -- number of streams needed and the control socket takes the frame, then each of `ss` is accepted
  -- with the state left as it is, and the last one sets the state to Running, tells the client by
  -- exactly one frame, and leaves all streams registered under consecutive numbers.
  accept_stream-Starts :
      (w : Writes (Runtime.transport env)) (payload : List ℕ) (ss : List (Socket env))
      (s : Socket env) (c : TestController env)
      → IsReady c
      → suc (length c.test.streams + length ss) ≡ total_needed_streams env c.test
      → w.IsOpen c.test.control_socket
      → Json.to_string
          (Runtime.server_json env)
          (ServerEnvelope.server_message (ServerMessage.set_state running))
        ≡ some payload
      → length payload < 2 ^ 32
      → Starts w payload ss s c
  accept_stream-Starts w payload ss s c h n o e l =
      let (d, early) = accept_all-early ss c h (omega arith) in
      let d' = create_and_register_stream_worker env s d in
      let (ready, longer) = register_lem s d early.ready in
      let (state, socket, total) = register_keeps s d in
      let whole = socket ∙ early.same_socket in
      let (u, set, _, all) =
        set_state-server env w running d'.test payload ready.role (rw whole o) e l in
      record {
        before = d;
        after = record d' { test = record d'.test { control_socket = u; state = running } };
        early = early;
        last =
            accept_last s d early.ready (omega (arith, early.more, early.same_total)) ∙ rw set refl;
        is_running = refl;
        all_streams = omega (arith, early.more);
        numbered = ready.numbered;
        told = rw whole at all;
      }
