-- ===== src/P2/Controller/Joining.antt =====
-- The streams that a client makes, one after the other.
use netperf.Prelude.{
  ℕ, suc, ◌+◌, ◌<◌, ◌≡◌, refl, ap, sym, ◌∙◌, subst, String, true, some, List, [], ◌∷◌, length,
  length-append, ltb, if◌then◌else◌, arith,
}
use netperf.Prelude.Dicts.{Numbered, insert-Numbered}
use netperf.P2.Data.{client}
use netperf.P2.Result.{ok, panic}
use netperf.P2.Runtime.{Runtime}
use netperf.P2.Controller.{
  TestController, Socket, greet, connect_data_stream, create_and_register_stream_worker,
  create_loop, create_streams_on_client, total_needed_streams, next_ref, is_server,
}
use netperf.P2.Controller.Gathering.{registered}

module _ (env : Runtime) where
  -- One more stream.
  pub register_next :
      (s : Socket env) (c : TestController env)
      → Numbered 0 c.test.streams
      → Numbered 0 (create_and_register_stream_worker env s c).test.streams
        × (length (create_and_register_stream_worker env s c).test.streams
            ≡ suc (length c.test.streams))
  unfolding create_and_register_stream_worker
  register_next s c h =
      let k = length c.test.streams in
      let (at_end, numbered) =
        insert-Numbered 0 k (next_ref env s c.test) c.test.streams (omega arith) h in
      let longer =
        ap length at_end ∙ length-append c.test.streams ((k, next_ref env s c.test) ∷ []) in
      (numbered, omega arith)

  pub register_keeps :
      (s : Socket env) (c : TestController env)
      → let c' = create_and_register_stream_worker env s c in
        (c'.test.state ≡ c.test.state)
        × (c'.test.control_socket ≡ c.test.control_socket)
        × (c'.test.cookie ≡ c.test.cookie)
        × (c'.test.client_address ≡ c.test.client_address)
  unfolding create_and_register_stream_worker
  register_keeps s c = (refl, refl, refl, refl)

  pub create_loop-done :
      (total : ℕ) (c : TestController env)
      → length c.test.streams ≡ total
      → create_loop env 0 total c ≡ (ok tt, c)
  unfolding create_loop
  create_loop-done total c h = ground arith

  pub create_loop-more :
      (fuel total : ℕ) (s : Socket env) (c : TestController env)
      → length c.test.streams < total
      → connect_data_stream env c ≡ ok s
      → create_loop env (suc fuel) total c
        ≡ create_loop env fuel total (create_and_register_stream_worker env s c)
  unfolding create_loop
  create_loop-more fuel total s c h e =
      let more : ltb (length c.test.streams) total ≡ true = ground arith in rw (more, e) refl

  -- Stream after stream from the k-th on can be connected, and its handshake gives `ss`.
  abbrev pub Dialed : (cookie address : String) → ℕ → List (Socket env) → Type 0
  Dialed cookie address k [] = Unit
  Dialed cookie address k (s ∷ ss) =
      ((raw : Socket env) × (Runtime.connect env address (suc k) ≡ ok raw)
        × (greet env cookie raw ≡ ok s))
      × Dialed cookie address (suc k) ss

  connect-Dialed :
      (cookie address : String) (raw s : Socket env) (c : TestController env)
      → c.test.cookie ≡ cookie
      → c.test.client_address ≡ some address
      → Runtime.connect env address (suc (length c.test.streams)) ≡ ok raw
      → greet env cookie raw ≡ ok s
      → connect_data_stream env c ≡ ok s
  unfolding connect_data_stream
  connect-Dialed cookie address raw s c e f v g = ground (arith, v, ap (λ k. greet env k raw) e ∙ g)

  create_loop-registered :
      (cookie address : String) (ss : List (Socket env)) (total : ℕ) (c : TestController env)
      → length c.test.streams + length ss ≡ total
      → Numbered 0 c.test.streams
      → c.test.cookie ≡ cookie
      → c.test.client_address ≡ some address
      → Dialed cookie address (length c.test.streams) ss
      → create_loop env (length ss) total c ≡ (ok tt, registered env ss c)
  create_loop-registered cookie address [] total c l n e f v =
      create_loop-done total c (omega arith)
  create_loop-registered cookie address (s ∷ ss) total c l n e f v =
      let (raw, connects, greets) = v.0 in
      let c' = create_and_register_stream_worker env s c in
      let (numbered, longer) = register_next s c n in
      let (_, _, same_cookie, same_address) = register_keeps s c in
      create_loop-more (length ss) total s c (omega arith)
        (connect-Dialed cookie address raw s c e f connects greets)
      ∙ create_loop-registered cookie address ss total c' (omega arith) numbered (same_cookie ∙ e)
          (same_address ∙ f) (subst (λ k. Dialed cookie address k ss) (sym longer) v.1)

  pub create_streams_on_client-registered :
      (cookie address : String) (ss : List (Socket env)) (c : TestController env)
      → c.test.role ≡ client
      → c.test.cookie ≡ cookie
      → c.test.client_address ≡ some address
      → c.test.streams ≡ []
      → total_needed_streams env c.test ≡ length ss
      → Dialed cookie address 0 ss
      → create_streams_on_client env c ≡ (ok tt, registered env ss c)
  unfolding create_streams_on_client
  create_streams_on_client-registered cookie address ss c r e f n t v =
      let empty = ap length n in
      ap
        (λ b.
          if b
          then (panic, c)
          else create_loop env (total_needed_streams env c.test) (total_needed_streams env c.test)
              c)
        (ap is_server r)
      ∙ ap (λ k. create_loop env k k c) t
      ∙ create_loop-registered cookie address ss (length ss) c (omega arith)
          (subst (Numbered 0) (sym n) tt) e f
          (subst (λ k. Dialed cookie address k ss) (sym empty) v)
