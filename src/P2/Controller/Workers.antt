-- ===== src/P2/Controller/Workers.antt =====
-- The workers of the streams that a controller registers, and what their tasks come to.
use mathlib.Core.List.{append_assoc, append-nil}
use netperf.Prelude.{
  ℕ, zero, suc, ◌+◌, ◌==◌, ◌≡◌, refl, ap, sym, ◌∙◌, subst, Bool, Bool-cases, ==_iff, inl, inr, not,
  ◌&&◌, Option, none, some, List, [], ◌∷◌, ◌++◌, map, length, length-append, get_elem?, ltb,
  if◌then◌else◌, arith,
}
use netperf.Prelude.Dicts.{
  get, remove, Numbered, Unique, TakenOut, insert-Numbered, get-remove_ne, get-remove_self,
  remove-Unique,
}
use netperf.Core.Stats.{Direction, StreamStats}
use netperf.P2.Data.{Role, TestParameters, internal_prot_buffer}
use netperf.P2.Runtime.{Runtime, Mpsc, StreamWorker, WorkerMessage, start_load}
use netperf.P2.PerfTest.{StreamWorkerRef}
use netperf.P2.Controller.{
  Socket, TestController, is_server, is_bidirectional, next_ref, tell,
  create_and_register_stream_worker, broadcast_to_streams,
}
use netperf.P2.Controller.Run.{keep_result, collect}
use netperf.P2.Controller.Results.{result_of, result_of_ref, get-keep_result, get-collect}
use netperf.P2.Controller.Gathering.{registered, broadcast-Numbered, Numbered-Unique}

-- Whether the stream with number `k` sends, where `sends` is the count of sending streams.
abbrev pub sending_at : Role → Direction → ℕ → ℕ → Bool
sending_at role direction sends k =
    if is_server role && is_bidirectional direction then not (ltb k sends) else ltb k sends

module _ (env : Runtime) where
  module _ (role : Role) (params : TestParameters) (sends : ℕ) where
    abbrev pub worker_at : ℕ → Socket env → StreamWorker (Socket env)
    worker_at k s = record {
      id = k;
      stream = s;
      params = params;
      is_sending = sending_at role params.direction sends k;
    }

    -- What the worker of a connection has as its result.
    abbrev pub worker_result : ℕ → Option (Socket env) → Option StreamStats
    worker_result k none = none
    worker_result k (some s) = result_of (Runtime.spawn env (worker_at k s)) none

    abbrev ref_at : ℕ → Socket env → StreamWorkerRef env
    ref_at k s = record {
      channel = Mpsc.channel (Runtime.mpsc env) internal_prot_buffer;
      join_handle = Runtime.spawn env (worker_at k s);
    }

    abbrev refs_from : ℕ → List (Socket env) → List (ℕ × StreamWorkerRef env)
    refs_from n [] = []
    refs_from n (s ∷ ss) = (n, ref_at n s) ∷ refs_from (suc n) ss

    get-refs_from :
        (n i k : ℕ) (ss : List (Socket env))
        → k ≡ n + i
        → result_of_ref env (get k (refs_from n ss)) none ≡ worker_result k (get_elem? ss i)
    get-refs_from n i k [] e = refl
    get-refs_from n zero k (s ∷ ss) e = let same : k ≡ n = omega arith in rw same (ground arith)
    get-refs_from n (suc i) k (s ∷ ss) e =
        ground (arith, get-refs_from (suc n) i k ss (omega arith))

    refs_from-Numbered : (n : ℕ) (ss : List (Socket env)) → Numbered n (refs_from n ss)
    refs_from-Numbered n [] = tt
    refs_from-Numbered n (s ∷ ss) = (refl, refs_from-Numbered (suc n) ss)

  registered-refs_from :
      (ss : List (Socket env)) (c : TestController env)
      → Numbered 0 c.test.streams
      → (registered env ss c).test.streams
        ≡ c.test.streams
          ++ refs_from c.test.role c.test.params c.test.num_send_streams (length c.test.streams) ss
  unfolding create_and_register_stream_worker
  registered-refs_from [] c n = sym (append-nil c.test.streams)
  registered-refs_from (s ∷ ss) c n =
      let refs = refs_from c.test.role c.test.params c.test.num_send_streams in
      let k = length c.test.streams in
      let r = next_ref env s c.test in
      let (at_end, numbered) = insert-Numbered 0 k r c.test.streams (omega arith) n in
      let more : length (c.test.streams ++ (k, r) ∷ []) ≡ suc k =
        length-append c.test.streams ((k, r) ∷ []) ∙ omega arith in
      registered-refs_from ss (create_and_register_stream_worker env s c) numbered
      ∙ ap (λ l. l ++ refs (length l) ss) at_end
      ∙ ap (λ j. (c.test.streams ++ (k, r) ∷ []) ++ refs j ss) more
      ∙ append_assoc c.test.streams ((k, r) ∷ []) (refs (suc k) ss)

  -- The streams of a controller that had none.
  registered-fresh :
      (ss : List (Socket env)) (c : TestController env)
      → c.test.streams ≡ []
      → (registered env ss c).test.streams
        ≡ refs_from c.test.role c.test.params c.test.num_send_streams 0 ss
  registered-fresh ss c e =
      let refs = refs_from c.test.role c.test.params c.test.num_send_streams in
      registered-refs_from ss c (subst (Numbered 0) (sym e) tt)
      ∙ ap (λ l. l ++ refs (length l) ss) e

  pub broadcast_to_streams-Unique :
      (ss : List (Socket env)) (c : TestController env)
      → c.test.streams ≡ []
      → Unique (broadcast_to_streams env start_load (registered env ss c)).test.streams
  broadcast_to_streams-Unique ss c e = Numbered-Unique 0 _ (
      broadcast-Numbered env start_load (registered env ss c) (
        subst (Numbered 0) (sym (registered-fresh ss c e))
          (refs_from-Numbered c.test.role c.test.params c.test.num_send_streams 0 ss)))

  get-tell :
      (m : WorkerMessage) (k : ℕ) (l : List (ℕ × StreamWorkerRef env)) (old : Option StreamStats)
      → result_of_ref env (get k (map (tell env m) l)) old ≡ result_of_ref env (get k l) old
  unfolding tell
  get-tell m k [] old = refl
  get-tell m k ((j, r) ∷ l) old = ground (arith, get-tell m k l old)

  -- For each number, what comes of the streams that are registered at the start of the load is what
  -- comes of the worker of the connection with that number.
  pub get-registered :
      (k : ℕ) (ss : List (Socket env)) (c : TestController env)
      → c.test.streams ≡ []
      → result_of_ref env
          (get k (broadcast_to_streams env start_load (registered env ss c)).test.streams)
          none
        ≡ worker_result c.test.role c.test.params c.test.num_send_streams k (get_elem? ss k)
  unfolding broadcast_to_streams
  get-registered k ss c e =
      get-tell start_load k (registered env ss c).test.streams none
      ∙ ap (λ l. result_of_ref env (get k l) none) (registered-fresh ss c e)
      ∙ get-refs_from c.test.role c.test.params c.test.num_send_streams 0 k k ss (omega arith)

  -- The results of streams that are taken out of a map, and then of the others.
  pub get-collect_taken :
      (k : ℕ) (order m going : List (ℕ × StreamWorkerRef env)) (results : List (ℕ × StreamStats))
      → Unique m
      → TakenOut order m going
      → get k (collect env (order ++ going) results) ≡ result_of_ref env (get k m) (get k results)
  unfolding collect
  get-collect_taken k [] m going results u t =
      subst (λ l. get k (collect env l results) ≡ result_of_ref env (get k m) (get k results)) t
        (get-collect env k m results u)
  get-collect_taken k ((id, r) ∷ order) m going results u t =
      let kept = keep_result env id r.join_handle results in
      let rest = get-collect_taken k order (remove id m) going kept (remove-Unique id m u) t.1 in
      let stored = get-keep_result env k id r.join_handle results in
      elim (Bool-cases (id == k)) [
        | inl e ↦
            let same = (==_iff id k).0 e in
            let gone = subst (λ j. get j (remove id m) ≡ none) same (get-remove_self id m u) in
            let found = subst (λ j. get j m ≡ some r) same t.0 in
            rest ∙ rw (gone, stored, e, found) refl
        | inr e ↦ rest ∙ rw (get-remove_ne id k m e, stored, e) refl
      ]
