-- ===== src/P2/Controller/Run/Stages.antt =====
-- The handlers of a server do nothing but steps of the protocol.
use netperf.Prelude.{
  ℕ, suc, ◌≡◌, refl, sym, subst, String, true, Bool-cases, inl, inr, Option, none, some, List, [],
  ◌∷◌, length, arith,
}
use netperf.Prelude.Dicts.{remove, get, length-insert_bounds, length-remove_bounds}
use netperf.P2.Data.{server}
use netperf.P2.Control.{State, running, exchange_results}
use netperf.P2.Result.{Result, ok, err, panic, diverged, next}
use netperf.P2.Runtime.{Runtime, Join, joined, join_error, late}
use netperf.P2.PerfTest.{PerfTest, StreamWorkerRef, set_state}
use netperf.P2.PerfTest.SetState.{set_state_keeps, set_state_fixed}
use netperf.P2.Controller.{
  ControllerMessage, create_stream, stream_terminated, is_empty, Socket, TestController,
  accept_stream, create_and_register_stream_worker, next_ref, total_needed_streams, on_test,
}
use netperf.P2.Controller.Run.{
  process_internal_message, process_stream_terminated, finish_if_idle, tell_exchange, join_worker,
  await, store,
}
use netperf.P2.Controller.Protocol.{
  View, is_open, at, Step, joins, fills, leaves, empties, Reach, then,
}

-- What a call leaves behind where it may fail on its way from `P` to `Q`.
pub next_keeps {ℓ κ μ ν} :
    {S : Type ℓ} {A B : Type κ} (P : S → Type μ) (Q : S → Type ν) (x : Result A × S)
    (f : A → S → Result B × S)
    → ((s : S) → P s → Q s)
    → ((a : A) (s : S) → P s → Q (f a s).1)
    → P x.1
    → Q (next x f).1
next_keeps P Q (ok a, s) f w k h = k a s h
next_keeps P Q (err e, s) f w k h = w s h
next_keeps P Q (panic, s) f w k h = w s h
next_keeps P Q (diverged, s) f w k h = w s h

-- How many connections the controller has been handed after one more message.
abbrev pub with_message : {S : Type 0} → Option (ControllerMessage S) → ℕ → ℕ
with_message none k = k
with_message (some (create_stream s)) k = suc k
with_message (some (stream_terminated id)) k = k

is_empty-length {ℓ} : {A : Type ℓ} (l : List A) → is_empty l ≡ true → length l ≡ 0
is_empty-length [] e = refl
is_empty-length (x ∷ l) e = cc

module _ (env : Runtime) (cookie : String) (total : ℕ) where
  -- What the protocol sees of a controller.
  abbrev pub view : TestController env → View
  view c = at c.test.state (length c.test.streams)

  -- A server of the cookie and of so many streams.
  pub record IsServerOf (p : PerfTest env) : Type 0 where
    pub role : p.role ≡ server
    pub cookie_of : p.cookie ≡ cookie
    pub total_of : total_needed_streams env p ≡ total

  module _ (v : View) where
    -- The controller has got from `v` to where it is, with `k` connections at most.
    pub record IsReached (k : ℕ) (c : TestController env) : Type 0 where
      pub of : IsServerOf c.test
      pub path : Reach cookie total v k (view c)

    -- The same, while streams come and go.
    pub record IsGathering (k : ℕ) (c : TestController env) : Type 0 where
      pub reached : IsReached k c
      pub open_state : is_open c.test.state ≡ true

    pub moved :
        (k : ℕ) (c c' : TestController env) (w : View)
        → IsReached k c
        → IsServerOf c'.test
        → Step cookie total (view c) w
        → w ≡ view c'
        → IsReached k c'
    moved k c c' w h o s e = record {
      of = o;
      path = then h.path (subst (Step cookie total (view c)) e s);
    }

    set_state-IsServerOf :
        (st : State) (p : PerfTest env) → IsServerOf p → IsServerOf (set_state env st p).1
    set_state-IsServerOf st p h =
        let (_, role, _) = set_state_keeps env st p in
        let (key, send, receive) = set_state_fixed env st p in
        ground (arith, h.role, h.cookie_of, h.total_of)

    -- A change of the state that is a step of the protocol, and may fail.
    pub set_state-IsReached :
        (k : ℕ) (st : State) (c : TestController env)
        → IsReached k c
        → Step cookie total (view c) (at st (length c.test.streams))
        → IsReached k (on_test env (set_state env st) c).1
    set_state-IsReached k st c h s =
        let (streams, _, state) = set_state_keeps env st c.test in
        let o = set_state-IsServerOf st c.test h.of in
        let c' = (on_test env (set_state env st) c).1 in
        elim state [
          | inl e ↦
              let same : view c ≡ view c' = cc in
              record { of = o; path = subst (Reach cookie total v k) same h.path }
          | inr e ↦
              let there : at st (length c.test.streams) ≡ view c' = cc in
              moved k c c' (at st (length c.test.streams)) h o s there
        ]

    accept_stream-IsReached :
        (k : ℕ) (s : Socket env) (c : TestController env)
        → IsGathering k c
        → IsReached (suc k) (accept_stream env s c).1
    unfolding accept_stream create_and_register_stream_worker
    accept_stream-IsReached k s c g =
        let h = g.reached in
        let n = length c.test.streams in
        let c' = create_and_register_stream_worker env s c in
        let (more, one) = length-insert_bounds n (next_ref env s c.test) c.test.streams in
        let o : IsServerOf c'.test = record {
          role = h.of.role;
          cookie_of = h.of.cookie_of;
          total_of = h.of.total_of;
        } in
        let joined_now : IsReached (suc k) c' = record {
          of = o;
          path = joins c.test.state n (length c'.test.streams) h.path g.open_state more one;
        } in
        let there = λ (e : length c'.test.streams ≡ total).
          subst (λ k. Step cookie total (at c.test.state k) (at running k)) (sym e)
            (fills c.test.state g.open_state) in
        let told = λ (e : length c'.test.streams ≡ total).
          set_state-IsReached (suc k) running c' joined_now (there e) in
        ground (arith, h.of.role, h.of.total_of, told)

    same_test :
        (k : ℕ) (c c' : TestController env) → c'.test ≡ c.test → IsGathering k c → IsGathering k c'
    same_test k c c' e g = record {
      reached = record {
        of = subst IsServerOf (sym e) g.reached.of;
        path =
            subst (λ p. Reach cookie total v k (at p.state (length p.streams))) (sym e)
              g.reached.path;
      };
      open_state = subst (λ p. is_open p.state ≡ true) (sym e) g.open_state;
    }

    join-test :
        (id : ℕ) (j : Join) (c : TestController env)
        → (next (await env id j, c) (λ result c'. (ok (tt {0}), store env id result c'))).1.test
          ≡ c.test
    unfolding await store
    join-test id (joined (ok result)) c = refl
    join-test id (joined (err e)) c = refl
    join-test id (joined panic) c = refl
    join-test id (joined diverged) c = refl
    join-test id join_error c = refl
    join-test id late c = refl

    join_worker-test :
        (id : ℕ) (o : Option (StreamWorkerRef env)) (c : TestController env)
        → (join_worker env id o c).1.test ≡ c.test
    unfolding join_worker
    join_worker-test id none c = refl
    join_worker-test id (some r) c = join-test id r.join_handle c

    finish_if_idle-IsReached :
        (k : ℕ) (c : TestController env) → IsGathering k c → IsReached k (finish_if_idle env c).1
    unfolding finish_if_idle tell_exchange
    finish_if_idle-IsReached k c g =
        let h = g.reached in
        elim (Bool-cases (is_empty c.test.streams)) [
          | inl e ↦
              let there =
                subst (λ k. Step cookie total (at c.test.state k) (at exchange_results k))
                  (sym (is_empty-length c.test.streams e)) (empties c.test.state g.open_state) in
              let told = set_state-IsReached k exchange_results c h there in
              ground (arith, h.of.role, told, e)
          | inr e ↦ rw e h
        ]

    process_stream_terminated-IsReached :
        (k id : ℕ) (c : TestController env)
        → IsGathering k c
        → IsReached k (process_stream_terminated env id c).1
    unfolding process_stream_terminated
    process_stream_terminated-IsReached k id c g =
        let h = g.reached in
        let (less, one) = length-remove_bounds id c.test.streams in
        let c' = record c { test = record c.test { streams = remove id c.test.streams } } in
        let o : IsServerOf c'.test = record {
          role = h.of.role;
          cookie_of = h.of.cookie_of;
          total_of = h.of.total_of;
        } in
        let left =
          moved k c c' _ h o
            (leaves c.test.state (length c.test.streams) (length c'.test.streams) g.open_state less
              one)
            refl in
        let joined_in =
          same_test k c' _ (join_worker-test id (get id c.test.streams) c')
            (record { reached = left; open_state = g.open_state }) in
        next_keeps (IsGathering k) (IsReached k) (join_worker env id (get id c.test.streams) c')
          (λ _ c₂. finish_if_idle env c₂) (λ c₂ g₂. g₂.reached)
          (λ _ c₂ g₂. finish_if_idle-IsReached k c₂ g₂) joined_in

    pub process_internal_message-IsReached :
        (k : ℕ) (m : Option (ControllerMessage (Socket env))) (c : TestController env)
        → IsGathering k c
        → IsReached (with_message m k) (process_internal_message env m c).1
    unfolding process_internal_message
    process_internal_message-IsReached k none c g = g.reached
    process_internal_message-IsReached k (some (create_stream s)) c g =
        accept_stream-IsReached k s c g
    process_internal_message-IsReached k (some (stream_terminated id)) c g =
        process_stream_terminated-IsReached k id c g
