-- ===== src/P2/Controller/Validity.antt =====
-- What the controller of a test keeps in whatever it does, on either side.
use netperf.Prelude.{
  ℕ, zero, suc, ◌≡◌, refl, Bool, true, false, String, Option, none, some, List, [], ◌∷◌, map,
  if◌then◌else◌, arith,
}
use netperf.Prelude.Dicts.{get, Unique, insert-Unique}
use netperf.Core.Stats.{TestResults}
use netperf.P2.Data.{Role, TestParameters}
use netperf.P2.Control.{State, running}
use netperf.P2.Result.{Result, ok, panic}
use netperf.P2.Runtime.{Runtime, WorkerMessage}
use netperf.P2.PerfTest.{PerfTest, StreamWorkerRef, set_state}
use netperf.P2.PerfTest.SetState.{set_state_preserves}
use netperf.P2.Controller.{
  is_server, Socket, TestController, create_and_register_stream_worker, accept_stream, create_loop,
  create_streams_on_client, broadcast_to_streams, tell, connect_data_stream, on_test,
  total_needed_streams,
}
use netperf.P2.Controller.Run.Stages.{next_keeps}

-- What the test was made with.
pub record Identity : Type 0 where
  pub client_address : Option String
  pub cookie : String
  pub role : Role
  pub params : TestParameters
  pub num_send_streams : ℕ
  pub num_receive_streams : ℕ

module _ (env : Runtime) where
  open env use {transport, server_json, client_json}

  abbrev pub identity : PerfTest env → Identity
  identity p = record {
    client_address = p.client_address;
    cookie = p.cookie;
    role = p.role;
    params = p.params;
    num_send_streams = p.num_send_streams;
    num_receive_streams = p.num_receive_streams;
  }

  -- The test is the one that it was; no two streams have one number, and no two results.
  abbrev pub IsKept : Identity → TestController env → Type 0
  IsKept i c =
      (identity c.test ≡ i) × Unique c.test.streams × Unique c.stream_results × (c.report ≡ none)

  -- The same behind the report, which has the results that the controller keeps.
  pub record IsReported (i : Identity) (c : TestController env) : Type 0 where
    pub same : identity c.test ≡ i
    pub no_streams : c.test.streams ≡ []
    pub results : Unique c.stream_results
    pub remote : TestResults
    pub reports : c.report ≡ some (record { streams = c.stream_results }, remote)

  tell-get :
      (m : WorkerMessage) (k : ℕ) (l : List (ℕ × StreamWorkerRef env))
      → get k l ≡ none
      → get k (map (tell env m) l) ≡ none
  unfolding tell
  tell-get m k [] h = refl
  tell-get m k ((j, w) ∷ l) h = ground (arith, tell-get m k l)

  tell-Unique :
      (m : WorkerMessage) (l : List (ℕ × StreamWorkerRef env))
      → Unique l
      → Unique (map (tell env m) l)
  unfolding tell
  tell-Unique m [] u = tt
  tell-Unique m ((j, w) ∷ l) u = (tell-get m j l u.0, tell-Unique m l u.1)

  module _ (i : Identity) where
    pub set_state-IsKept :
        (state : State) (c : TestController env)
        → IsKept i c
        → IsKept i (on_test env (set_state env state) c).1
    set_state-IsKept state c h =
        set_state_preserves env (λ p. IsKept i (record c { test = p })) state c.test (λ s st p k. k)
          h

    register-IsKept :
        (s : Socket env) (c : TestController env)
        → IsKept i c
        → IsKept i (create_and_register_stream_worker env s c)
    unfolding create_and_register_stream_worker
    register-IsKept s c h = (h.0, insert-Unique _ _ c.test.streams h.1, h.2, h.3)

    pub broadcast-IsKept :
        (m : WorkerMessage) (c : TestController env)
        → IsKept i c
        → IsKept i (broadcast_to_streams env m c)
    unfolding broadcast_to_streams
    broadcast-IsKept m c h = (h.0, tell-Unique m c.test.streams h.1, h.2, h.3)

    pub branch :
        {A : Type 0} (b : Bool) (x y : Result A × TestController env)
        → IsKept i x.1
        → IsKept i y.1
        → IsKept i (if b then x else y).1
    branch true x y h k = h
    branch false x y h k = k

    pub accept_stream-IsKept :
        (s : Socket env) (c : TestController env) → IsKept i c → IsKept i (accept_stream env s c).1
    unfolding accept_stream
    accept_stream-IsKept s c h =
        let c' = create_and_register_stream_worker env s c in
        let h' = register-IsKept s c h in
        branch (is_server c.test.role) _ _
          (branch _ _ (ok tt, c') (set_state-IsKept running c' h') h') h

    create_loop-IsKept :
        (fuel total : ℕ) (c : TestController env)
        → IsKept i c
        → IsKept i (create_loop env fuel total c).1
    unfolding create_loop
    create_loop-IsKept zero total c h = branch _ _ _ h h
    create_loop-IsKept (suc fuel) total c h =
        let round =
          next_keeps (IsKept i) (IsKept i) (connect_data_stream env c, c)
            (λ s c'. create_loop env fuel total (create_and_register_stream_worker env s c'))
            (λ c' k. k)
            (λ s c' k.
              create_loop-IsKept fuel total (create_and_register_stream_worker env s c')
                (register-IsKept s c' k))
            h in
        branch _ _ _ round h

    pub create_streams_on_client-IsKept :
        (c : TestController env) → IsKept i c → IsKept i (create_streams_on_client env c).1
    unfolding create_streams_on_client
    create_streams_on_client-IsKept c h =
        let total = total_needed_streams env c.test in
        branch (is_server c.test.role) (panic, c) _ h (create_loop-IsKept total total c h)
