-- ===== src/P2/Session/Sums.antt =====
-- What the two sides of a whole test print.
use netperf.Prelude.{
  ℕ, ◌==◌, Bool-cases, inl, inr, Option-cases, ◌<◌, ◌≤◌, ◌≡◌, ◌↔◌, ◌≢◌, refl, sym, ◌∙◌, true,
  Option, none, some, List, [], ◌∷◌, ◌++◌, length, get_elem?, get_elem?-none, arith,
}
use netperf.Prelude.Dicts.{get}
use netperf.Core.Stats.{StreamStats, TestResults}
use netperf.Core.Ui.{Totals, is_one_way, sum_lines}
use netperf.Core.Ui.Sums.{lines_of}
use netperf.Core.Ui.Agreement.{print_summary-SameSums}
use netperf.P2.Data.{Role, server, client, TestParameters}
use netperf.P2.Result.{Result, ok}
use netperf.P2.Transport.{Duplex}
use netperf.P2.Runtime.{Runtime, joined}
use netperf.P2.PerfTest.{stream_counts}
use netperf.P2.Controller.{Socket, TestController}
use netperf.P2.Controller.Workers.{worker_at}
use netperf.P2.Controller.Report.{print_results}
use netperf.P2.Session.{Ending}
use netperf.P2.Session.Results.{stream_result}
use netperf.P2.Session.Ends.{End}

get-length {ℓ} : {V : Type ℓ} (m : List (ℕ × V)) → get 0 m ≢ none → get 1 m ≢ none → 1 < length m
get-length [] h k = absurd (h refl)
get-length ((j, v) ∷ []) h k = elim (Bool-cases (j == 0)) [
  | inl e ↦ absurd (k (ground arith))
  | inr e ↦ absurd (h (rw e refl))
]
get-length (x ∷ y ∷ m) h k = omega arith

module _ (env : Runtime) where
  -- The workers of all streams of a side have ended well.
  abbrev pub EndWell : Role → TestParameters → List (Socket env) → Type 0
  EndWell role params ss =
      (k : ℕ) (s : Socket env)
      → get_elem? ss k ≡ some s
      → (stats : StreamStats) × (Runtime.spawn env
            (worker_at env role params (stream_counts role params.direction params.parallel).0 k s)
          ≡ joined (ok stats))

  stream_result-none :
      (role : Role) (params : TestParameters) (ss : List (Socket env)) (k : ℕ)
      → EndWell role params ss
      → (stream_result env role params k (get_elem? ss k) ≡ none) ↔ (length ss ≤ k)
  stream_result-none role params ss k h = elim (Option-cases (get_elem? ss k)) [
    | inl e ↦ ((λ q. (get_elem?-none ss k).0 e), (λ l. rw e refl))
    | inr (s, e) ↦
        let (stats, ended) = h k s e in
        (
          (λ q. let some_none = rw (e, ended) at q in cc),
          (λ l. let gone = (get_elem?-none ss k).1 l in cc),
        )
  ]

  -- Both sides print a line for each result, and the same sums of bytes.
  pub record PrintSameSums (params : TestParameters) (of_server of_client : TestResults)
      : Type 0 where
    pub on_server : Totals
    pub on_client : Totals
    pub server_prints :
        (print_results params of_server of_client).0
        ≡ lines_of of_client params.direction of_server.streams ++ sum_lines on_server
    pub client_prints :
        (print_results params of_client of_server).0
        ≡ lines_of of_server params.direction of_client.streams ++ sum_lines on_client
    pub sent : on_server.sender_bytes_transferred ≡ on_client.sender_bytes_transferred
    pub received : on_server.receiver_bytes_transferred ≡ on_client.receiver_bytes_transferred

  -- After a whole test in one direction that ended well on both sides, with equally many
  -- connections on both, more than one, and all workers of both sides ended well, what
  -- `print_results` prints of a summary is on either side a line for each result followed by the
  -- two sums, and the sums of bytes sent and of bytes received are the same on both sides.
  pub print_results-PrintSameSums :
      (d : Duplex (Runtime.transport env)) (params : TestParameters) (ss cs : List (Socket env))
      (by_server by_client rest_s rest_c : List ℕ) (of_server of_client : TestResults)
      (x : Result Ending × Option (TestController env))
      (y : Result (Unit {0}) × Option (TestController env))
      → End env d params ss cs by_server by_client rest_s rest_c of_server of_client x y
      → is_one_way params.direction ≡ true
      → length cs ≡ length ss
      → 1 < length ss
      → EndWell server params ss
      → EndWell client params cs
      → PrintSameSums params of_server of_client
  unfolding print_results
  print_results-PrintSameSums d params ss cs by_server by_client rest_s rest_c of_server of_client x
        y e w l m hs hc =
      let in_server : (k : ℕ) → (get k of_server.streams ≡ none) ↔ (length ss ≤ k) = λ k.
        let (to, from) = stream_result-none server params ss k hs in
        ((λ q. to (sym (e.server_workers k) ∙ q)), (λ q. e.server_workers k ∙ from q)) in
      let in_client : (k : ℕ) → (get k of_client.streams ≡ none) ↔ (length cs ≤ k) = λ k.
        let (to, from) = stream_result-none client params cs k hc in
        ((λ q. to (sym (e.client_workers k) ∙ q)), (λ q. e.client_workers k ∙ from q)) in
      let same =
        print_summary-SameSums of_server of_client params.direction w e.server_once e.client_once
          (λ k. (
            (λ q. let a = (in_server k).0 q in (in_client k).1 (omega arith)),
            (λ q. let a = (in_client k).0 q in (in_server k).1 (omega arith)),
          ))
          (get-length of_server.streams (λ q. let a = (in_server 0).0 q in omega arith)
            (λ q. let a = (in_server 1).0 q in omega arith))
          (get-length of_client.streams (λ q. let a = (in_client 0).0 q in omega arith)
            (λ q. let a = (in_client 1).0 q in omega arith)) in
      record {
        on_server = same.here;
        on_client = same.there;
        server_prints = same.printed_here;
        client_prints = same.printed_there;
        sent = same.sent;
        received = same.received;
      }
