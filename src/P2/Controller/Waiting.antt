-- ===== src/P2/Controller/Waiting.antt =====
-- A server's controller ends well only after each registered stream was reported as terminated.
use netperf.Prelude.{
  ℕ, zero, suc, ◌≡◌, ◌≢◌, refl, Bool, true, false, none, some, List, [], ◌∷◌, map, All, arith,
  length,
}
use netperf.Prelude.Dicts.{Has, Has-insert, Has-remove, remove}
use netperf.P2.Data.{Role, server, client}
use netperf.P2.Control.{
  State, test_start, create_streams, running, exchange_results, display_results,
}
use netperf.P2.Result.{Result, ok, err, panic, diverged, next}
use netperf.P2.Runtime.{Runtime, WorkerMessage, start_load}
use netperf.P2.PerfTest.{StreamWorkerRef}
use netperf.P2.PerfTest.SetState.{set_state_keeps}
use netperf.P2.Controller.{
  create_stream, stream_terminated, Flow, again, wait, stop, is_empty, Socket, TestController,
  accept_stream, create_and_register_stream_worker, next_ref, broadcast_to_streams, tell,
}
use netperf.P2.Controller.Run.{
  process_internal_message, process_stream_terminated, act, act_on_state,
}
use netperf.P2.Controller.Loop.{Choice, internal, in_header, from_server, receive, turn, run}

abbrev pub is_exchange : State → Bool
is_exchange exchange_results = true
is_exchange _ = false

-- The choice is not the notice that stream `id` has terminated.
abbrev pub Unnoticed : {S : Type 0} → ℕ → Choice S → Type 0
Unnoticed id (internal (some (stream_terminated j)) k) = j ≢ id
Unnoticed id (in_header (some (stream_terminated j)) k) = j ≢ id
Unnoticed id _ = Unit

-- The controller from some point on.
abbrev Rest : (env : Runtime) → Type 0
Rest env =
    List (Choice (Socket env)) → State → TestController env → Result (Unit {0}) × TestController env

Has-is_empty {ℓ} : {V : Type ℓ} (k : ℕ) (m : List (ℕ × V)) → Has k m → is_empty m ≡ false
Has-is_empty k [] h = absurd h
Has-is_empty k (e ∷ m) h = refl

module _ (env : Runtime) (id : ℕ) where
  -- A server with stream `id` registered that is not about to exchange results.
  pub record IsWaiting (c : TestController env) : Type 0 where
    pub role : c.test.role ≡ server
    pub registered : Has id c.test.streams
    pub not_done : is_exchange c.test.state ≡ false

  accept_stream-IsWaiting :
      (s : Socket env) (c : TestController env) → IsWaiting c → IsWaiting (accept_stream env s c).1
  unfolding accept_stream
  accept_stream-IsWaiting s c h =
      let p = (create_and_register_stream_worker env s c).test in
      let has =
        Has-insert id (length c.test.streams) (next_ref env s c.test) c.test.streams h.registered in
      ground (arith, has, set_state_keeps env running p)

  process_stream_terminated-IsWaiting :
      (j : ℕ) (c : TestController env)
      → j ≢ id
      → IsWaiting c
      → IsWaiting (process_stream_terminated env j c).1
  unfolding process_stream_terminated
  process_stream_terminated-IsWaiting j c n h =
      let has = Has-remove id j c.test.streams n h.registered in
      ground (arith, has, Has-is_empty id (remove j c.test.streams) has)

  receive-IsWaiting :
      (choice : Choice (Socket env)) (c : TestController env)
      → Unnoticed id choice
      → IsWaiting c
      → IsWaiting (receive env choice c).1
  unfolding receive process_internal_message
  receive-IsWaiting (internal none k) c n h = ground arith
  receive-IsWaiting (internal (some (create_stream s)) k) c n h =
      ground (arith, accept_stream-IsWaiting s c h)
  receive-IsWaiting (internal (some (stream_terminated j)) k) c n h =
      ground (arith, process_stream_terminated-IsWaiting j c n h)
  receive-IsWaiting (in_header none k) c n h = ground arith
  receive-IsWaiting (in_header (some (create_stream s)) k) c n h =
      ground (arith, accept_stream-IsWaiting s c h)
  receive-IsWaiting (in_header (some (stream_terminated j)) k) c n h =
      ground (arith, process_stream_terminated-IsWaiting j c n h)
  receive-IsWaiting from_server c n h = ground arith

  Has-tell :
      (m : WorkerMessage) (l : List (ℕ × StreamWorkerRef env))
      → Has id l
      → Has id (map (tell env m) l)
  unfolding tell
  Has-tell m [] h = h
  Has-tell m ((j, r) ∷ l) h = ground (arith, Has-tell m l)

  broadcast-IsWaiting :
      (m : WorkerMessage) (c : TestController env)
      → IsWaiting c
      → IsWaiting (broadcast_to_streams env m c)
  unfolding broadcast_to_streams
  broadcast-IsWaiting m c h = record {
    role = h.role;
    registered = Has-tell m c.test.streams h.registered;
    not_done = h.not_done;
  }

  act-IsWaiting :
      (r : Role) (st old : State) (c : TestController env)
      → r ≡ server
      → is_exchange st ≡ false
      → IsWaiting c
      → IsWaiting (act env r st old c).1 × ((act env r st old c).0 ≢ ok stop)
  unfolding act
  act-IsWaiting client st old c e x h = cc
  act-IsWaiting server test_start old c e x h =
      let keeps = set_state_keeps env (create_streams c.test.cookie) c.test in ground (arith, keeps)
  act-IsWaiting server (create_streams cookie) old c e x h = (h, λ f. cc)
  act-IsWaiting server running old c e x h = ground (arith, broadcast-IsWaiting start_load c h)
  act-IsWaiting server exchange_results old c e x h = cc
  act-IsWaiting server display_results old c e x h = (h, λ f. cc)

  act_on_state-IsWaiting :
      (old : State) (c : TestController env)
      → IsWaiting c
      → IsWaiting (act_on_state env old c).1 × ((act_on_state env old c).0 ≢ ok stop)
  unfolding act_on_state
  act_on_state-IsWaiting old c h = act-IsWaiting c.test.role c.test.state old c h.role h.not_done h

  -- What `run` with less fuel keeps to.
  Waits : (rec : Rest env) → Type 0
  Waits rec =
      (schedule : List (Choice (Socket env))) (old : State) (c : TestController env)
      → IsWaiting c
      → All (Unnoticed id) schedule
      → (rec schedule old c).0 ≢ ok tt

  received :
      (rec : Rest env) (now : State) (rest : List (Choice (Socket env)))
      → Waits rec
      → All (Unnoticed id) rest
      → (x : Result (Unit {0}) × TestController env) → IsWaiting x.1
      → (next x (λ _ c'. rec rest now c')).0 ≢ ok tt
  unfolding Waits
  received rec now rest w n (ok _, c) h = w rest now c h n
  received rec now rest w n (err e, c) h = λ f. cc
  received rec now rest w n (panic, c) h = λ f. cc
  received rec now rest w n (diverged, c) h = λ f. cc

  turn_lem :
      (rec : Rest env) (now old : State) (schedule : List (Choice (Socket env)))
      → Waits rec
      → All (Unnoticed id) schedule
      → (x : Result Flow × TestController env) → IsWaiting x.1
      → x.0 ≢ ok stop
      → (next x (turn env rec now old schedule)).0 ≢ ok tt
  unfolding Waits
  turn_lem rec now old schedule w n (ok stop, c) h s = absurd (s refl)
  turn_lem rec now old schedule w n (ok again, c) h s = w schedule old c h n
  turn_lem rec now old [] w n (ok wait, c) h s = λ f. cc
  turn_lem rec now old (choice ∷ rest) w n (ok wait, c) h s =
      received rec now rest w n.1 (receive env choice c) (receive-IsWaiting choice c n.0 h)
  turn_lem rec now old schedule w n (err e, c) h s = λ f. cc
  turn_lem rec now old schedule w n (panic, c) h s = λ f. cc
  turn_lem rec now old schedule w n (diverged, c) h s = λ f. cc

  -- A server whose stream `id` is registered and whose state is not ExchangeResults never ends its
  -- test with ok, whatever the fuel and the schedule, as long as the schedule holds no notice that
  -- stream `id` has terminated.
  pub run-waits :
      (fuel : ℕ) (schedule : List (Choice (Socket env))) (old : State) (c : TestController env)
      → IsWaiting c
      → All (Unnoticed id) schedule
      → (run env fuel schedule old c).0 ≢ ok tt
  unfolding run Waits
  run-waits zero schedule old c h n = λ e. cc
  run-waits (suc fuel) schedule old c h n =
      let (waiting, goes_on) = act_on_state-IsWaiting old c h in
      turn_lem (run env fuel) c.test.state old schedule (run-waits fuel) n (act_on_state env old c)
        waiting goes_on
