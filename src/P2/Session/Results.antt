-- ===== src/P2/Session/Results.antt =====
-- The results of a side of a whole test, stream by stream.
use netperf.Prelude.{
  ℕ, ◌≡◌, refl, sym, ap, ◌∙◌, subst, String, Option, none, some, List, [], ◌∷◌, ◌++◌, get_elem?,
}
use netperf.Prelude.Dicts.{get, Unique, insert-Unique}
use netperf.Core.Stats.{StreamStats, TestResults}
use netperf.P2.Data.{Role, server, client, TestParameters}
use netperf.P2.Result.{ok, err, panic, diverged}
use netperf.P2.Transport.{Duplex}
use netperf.P2.Runtime.{Runtime, Join, joined, join_error, late}
use netperf.P2.PerfTest.{StreamWorkerRef, stream_counts}
use netperf.P2.PerfTest
use netperf.P2.Controller.{Socket, new}
use netperf.P2.Controller.Run.{keep_result, collect}
use netperf.P2.Controller.Results.{result_of_ref, get-collect}
use netperf.P2.Controller.Workers.{
  worker_result, broadcast_to_streams-Unique, get-registered, get-collect_taken,
}
use netperf.P2.Session.Start.{controller_of, loaded}
use netperf.P2.Session.Script.{ServerStreams, ClientStreams}

module _ (env : Runtime) where
  -- What a side has for the stream with the number `k`, if that has a connection.
  abbrev pub stream_result : Role → TestParameters → ℕ → Option (Socket env) → Option StreamStats
  stream_result role params =
      worker_result env role params (stream_counts role params.direction params.parallel).0

  get-loaded :
      (k : ℕ) (ss : List (Socket env)) (address : Option String) (cookie : String) (s : Socket env)
      (role : Role) (params : TestParameters)
      → result_of_ref env
          (get k (loaded env ss (controller_of env address cookie s role params)))
          none
        ≡ stream_result role params k (get_elem? ss k)
  unfolding PerfTest.new new
  get-loaded k ss address cookie s role params =
      get-registered env k ss (controller_of env address cookie s role params) refl

  keep_result-Unique :
      (id : ℕ) (j : Join) (results : List (ℕ × StreamStats))
      → Unique results
      → Unique (keep_result env id j results)
  unfolding keep_result
  keep_result-Unique id (joined (ok stats)) results u = insert-Unique id stats results u
  keep_result-Unique id (joined (err e)) results u = u
  keep_result-Unique id (joined panic) results u = u
  keep_result-Unique id (joined diverged) results u = u
  keep_result-Unique id join_error results u = u
  keep_result-Unique id late results u = u

  collect-Unique :
      (refs : List (ℕ × StreamWorkerRef env)) (results : List (ℕ × StreamStats))
      → Unique results
      → Unique (collect env refs results)
  unfolding collect
  collect-Unique [] results u = u
  collect-Unique ((id, r) ∷ refs) results u =
      collect-Unique refs (keep_result env id r.join_handle results)
        (keep_result-Unique id r.join_handle results u)

  module _ (d : Duplex (Runtime.transport env)) (cookie : String) where
    module _ (params : TestParameters) (s : Socket env) (ss : List (Socket env))
        (order : List (ℕ × StreamWorkerRef env)) (results : TestResults)
        (h : ServerStreams env d cookie params s ss order results) where
      pub get-server_results :
          (k : ℕ) → get k results.streams ≡ stream_result server params k (get_elem? ss k)
      get-server_results k =
          ap (λ r. get k r.streams) h.collected
          ∙ get-collect env k order [] h.each_once
          ∙ ap (λ r. result_of_ref env r none) (h.entries k)
          ∙ get-loaded k ss none cookie s server params

      pub server_results-Unique : Unique results.streams
      server_results-Unique =
          subst (λ r. Unique r.streams) (sym h.collected) (collect-Unique order [] tt)

    module _ (address : String) (params : TestParameters) (c : Socket env) (cs : List (Socket env))
        (reported going : List (ℕ × StreamWorkerRef env)) (results : TestResults)
        (h : ClientStreams env d cookie address params c cs reported going results) where
      pub get-client_results :
          (k : ℕ) → get k results.streams ≡ stream_result client params k (get_elem? cs k)
      unfolding PerfTest.new new
      get-client_results k =
          let side = controller_of env (some address) cookie c client params in
          ap (λ r. get k r.streams) h.collected
          ∙ get-collect_taken env k reported (loaded env cs side) going []
              (broadcast_to_streams-Unique env cs side refl) h.taken
          ∙ get-loaded k cs (some address) cookie c client params

      pub client_results-Unique : Unique results.streams
      client_results-Unique =
          subst (λ r. Unique r.streams) (sym h.collected) (collect-Unique (reported ++ going) [] tt)
