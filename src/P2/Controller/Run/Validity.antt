-- ===== src/P2/Controller/Run/Validity.antt =====
-- What the handlers of the controller keep, on either side.
use netperf.Prelude.{
  ℕ, ◌≡◌, refl, ap, Bool, true, false, Option, none, some, List, [], ◌∷◌, if◌then◌else◌,
}
use netperf.Prelude.Dicts.{get, remove, Unique, insert-Unique, remove-Unique}
use netperf.Core.Stats.{StreamStats, TestResults}
use netperf.P2.Data.{Role, server, client}
use netperf.P2.Control.{
  State, test_start, create_streams, running, exchange_results, display_results, ServerMessage,
}
use netperf.P2.Result.{Result, ok, err, panic, diverged, next, with_context}
use netperf.P2.Runtime.{Runtime, Join, joined, join_error, late, start_load, terminate}
use netperf.P2.PerfTest.{StreamWorkerRef, set_state}
use netperf.P2.Controller.{
  ControllerMessage, create_stream, stream_terminated, Flow, again, wait, stop, is_running, Socket,
  TestController, broadcast_to_streams, on_test, create_streams_on_client,
}
use netperf.P2.Controller.Run.{
  collect, keep_result, collect_test_result, exchange_with_peer, join_worker, store, await,
  finish_if_idle, tell_exchange, process_stream_terminated, process_internal_message,
  process_server_message, act_on_server_message, finish, act, act_on_state,
}
use netperf.P2.Controller.Run.Stages.{next_keeps}
use netperf.P2.Controller.Run.Rounds.{exchange_with_peer_keeps}
use netperf.P2.Controller.Validity.{
  Identity, IsKept, IsReported, set_state-IsKept, broadcast-IsKept, accept_stream-IsKept,
  create_streams_on_client-IsKept, branch,
}

module _ (env : Runtime) where
  keep_result-Unique :
      (k : ℕ) (j : Join) (results : List (ℕ × StreamStats))
      → Unique results
      → Unique (keep_result env k j results)
  unfolding keep_result
  keep_result-Unique k (joined (ok result)) results u = insert-Unique k result results u
  keep_result-Unique k (joined (err e)) results u = u
  keep_result-Unique k (joined panic) results u = u
  keep_result-Unique k (joined diverged) results u = u
  keep_result-Unique k join_error results u = u
  keep_result-Unique k late results u = u

  collect-Unique :
      (refs : List (ℕ × StreamWorkerRef env)) (results : List (ℕ × StreamStats))
      → Unique results
      → Unique (collect env refs results)
  unfolding collect
  collect-Unique [] results u = u
  collect-Unique ((k, w) ∷ refs) results u =
      collect-Unique refs (keep_result env k w.join_handle results)
        (keep_result-Unique k w.join_handle results u)

  module _ (i : Identity) where
    store-IsKept :
        (id : ℕ) (result : Result StreamStats) (c : TestController env)
        → IsKept env i c
        → IsKept env i (store env id result c)
    unfolding store
    store-IsKept id (ok result) c h = (h.0, h.1, insert-Unique id result c.stream_results h.2, h.3)
    store-IsKept id (err e) c h = h
    store-IsKept id panic c h = h
    store-IsKept id diverged c h = h

    join_worker-IsKept :
        (id : ℕ) (found : Option (StreamWorkerRef env)) (c : TestController env)
        → IsKept env i c
        → IsKept env i (join_worker env id found c).1
    unfolding join_worker
    join_worker-IsKept id none c h = h
    join_worker-IsKept id (some w) c h =
        next_keeps (IsKept env i) (IsKept env i) (await env id w.join_handle, c)
          (λ result c'. (ok tt, store env id result c')) (λ c' k. k)
          (λ result c' k. store-IsKept id result c' k) h

    finish_if_idle-IsKept :
        (c : TestController env) → IsKept env i c → IsKept env i (finish_if_idle env c).1
    unfolding finish_if_idle tell_exchange
    finish_if_idle-IsKept c h =
        branch env i _ (tell_exchange env c) (ok tt, c)
          (set_state-IsKept env i exchange_results c h) h

    pub process_internal_message-IsKept :
        (m : Option (ControllerMessage (Socket env))) (c : TestController env)
        → IsKept env i c
        → IsKept env i (process_internal_message env m c).1
    unfolding process_internal_message process_stream_terminated
    process_internal_message-IsKept none c h = h
    process_internal_message-IsKept (some (create_stream s)) c h = accept_stream-IsKept env i s c h
    process_internal_message-IsKept (some (stream_terminated id)) c h =
        let left : IsKept env i
            (record c { test = record c.test { streams = remove id c.test.streams } }) =
          (h.0, remove-Unique id c.test.streams h.1, h.2, h.3) in
        next_keeps (IsKept env i) (IsKept env i) (join_worker env id (get id c.test.streams) _)
          (λ _ c'. finish_if_idle env c') (λ c' k. k) (λ _ c' k. finish_if_idle-IsKept c' k)
          (join_worker-IsKept id (get id c.test.streams) _ left)

    act_on_server_message-IsKept :
        (m : ServerMessage) (c : TestController env)
        → IsKept env i c
        → IsKept env i (act_on_server_message env m c).1
    unfolding act_on_server_message
    act_on_server_message-IsKept ServerMessage.welcome c h = h
    act_on_server_message-IsKept (ServerMessage.set_state state) c h =
        set_state-IsKept env i state c h
    act_on_server_message-IsKept (ServerMessage.send_results results) c h = h

    pub process_server_message-IsKept :
        (received : Result ServerMessage) (c : TestController env)
        → IsKept env i c
        → IsKept env i (process_server_message env received c).1
    unfolding process_server_message
    process_server_message-IsKept received c h =
        next_keeps (IsKept env i) (IsKept env i) (with_context "Server terminated!" received, c)
          (λ m c'. act_on_server_message env m c') (λ c' k. k)
          (λ m c' k. act_on_server_message-IsKept m c' k) h

    -- What the head of a round leaves behind: only where the loop ends is there a report.
    abbrev pub Acted : Result Flow → TestController env → Type 0
    Acted (ok stop) c = IsReported env i c
    Acted (ok again) c = IsKept env i c
    Acted (ok wait) c = IsKept env i c
    Acted (err e) c = IsKept env i c
    Acted panic c = IsKept env i c
    Acted diverged c = IsKept env i c

    -- A call that keeps what there was, with a known way to go on behind it.
    goes_on :
        {A : Type 0} (P : TestController env → Type 0) (x : Result A × TestController env)
        (f : A → TestController env → Result Flow × TestController env)
        → ((c : TestController env) → P c → IsKept env i c)
        → P x.1
        → ((a : A) (c : TestController env) → P c → Acted (f a c).0 (f a c).1)
        → Acted (next x f).0 (next x f).1
    goes_on P (ok a, c) f w h k = k a c h
    goes_on P (err e, c) f w h k = w c h
    goes_on P (panic, c) f w h k = w c h
    goes_on P (diverged, c) f w h k = w c h

    -- Behind the collection of the results.
    abbrev HasCollected : TestResults → TestController env → Type 0
    HasCollected local c =
        IsKept env i c × (c.test.streams ≡ []) × (local ≡ record { streams = c.stream_results })

    finish-Acted :
        (c : TestController env) → IsKept env i c → Acted (finish env c).0 (finish env c).1
    unfolding finish collect_test_result broadcast_to_streams
    finish-Acted c h =
        let told = broadcast_to_streams env terminate c in
        let (local, c₁) = collect_test_result env told in
        goes_on (HasCollected local) (exchange_with_peer env local c₁) _ (λ c₂ k. k.0)
          (exchange_with_peer_keeps env (HasCollected local) (λ s c₂ k. k) local c₁
            ((h.0, tt, collect-Unique told.test.streams c.stream_results h.2, h.3), refl, refl))
          (λ remote c₂ k. record {
            same = k.0.0;
            no_streams = k.1;
            results = k.0.2;
            remote = remote;
            reports = ap (λ l. some (l, remote)) k.2;
          })

    load-IsKept :
        (b : Bool) (c : TestController env)
        → IsKept env i c
        → IsKept env i (if b then c else broadcast_to_streams env start_load c)
    load-IsKept true c h = h
    load-IsKept false c h = broadcast-IsKept env i start_load c h

    act-Acted :
        (r : Role) (st old : State) (c : TestController env)
        → IsKept env i c
        → Acted (act env r st old c).0 (act env r st old c).1
    unfolding act
    act-Acted server test_start old c h =
        goes_on (IsKept env i) (on_test env (set_state env (create_streams c.test.cookie)) c) _
          (λ c' k. k) (set_state-IsKept env i (create_streams c.test.cookie) c h) (λ _ c' k. k)
    act-Acted client test_start old c h = h
    act-Acted client (create_streams k) old c h =
        goes_on (IsKept env i) (create_streams_on_client env c) _ (λ c' k. k)
          (create_streams_on_client-IsKept env i c h) (λ _ c' k. k)
    act-Acted server (create_streams k) old c h = h
    act-Acted server running old c h = load-IsKept (is_running old) c h
    act-Acted client running old c h = load-IsKept (is_running old) c h
    act-Acted server exchange_results old c h = finish-Acted c h
    act-Acted client exchange_results old c h = finish-Acted c h
    act-Acted server display_results old c h = h
    act-Acted client display_results old c h = h

    pub act_on_state-Acted :
        (old : State) (c : TestController env)
        → IsKept env i c
        → Acted (act_on_state env old c).0 (act_on_state env old c).1
    unfolding act_on_state
    act_on_state-Acted old c h = act-Acted c.test.role c.test.state old c h
