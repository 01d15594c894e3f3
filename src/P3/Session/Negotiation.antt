-- ===== src/P3/Session/Negotiation.antt =====
-- Both sides of one test: the server does the client's plan the other way round, and the client
-- prints what the server counted.
use netperf.Prelude.{
  ℕ, zero, suc, ◌-◌, ◌^◌, ◌<◌, ◌≡◌, refl, ap, sym, ◌∙◌, true, false, some, List, [], ◌∷◌, ◌++◌, map,
  length, concat, All, usize, arith,
}
use netperf.Prelude.Bytes.{le_bytes_64, from_le_bytes_64, le_bytes_64-from_le_bytes_64}
use netperf.Core.Stats.{StreamStats, TestResults}
use netperf.P3.Roles.{direction_of, roles}
use netperf.P3.Frames.{Chunk, complete, value, framed, recv_msg, recv_msg-framed}
use netperf.P3.Session.{
  Params, Opts, Connection, Plan, Codec, finished, run_streams, to_results, take_connections,
  server_plan, client_plan, client_params, dir_of, run_server, run_client, serve, transfer, answer,
  dial, conclude, report, remote_of,
}

-- The other side of a plan.
abbrev pub mirror : Plan → Plan
mirror p = record p { sending = p.receiving; receiving = p.sending }

abbrev pub IsByte : ℕ → Type 0
IsByte b = b < 256

pub record IsCodec (json : Codec) : Type 0 where
  pub params_back :
      (p : Params) (bytes : List ℕ)
      → json.params_to_vec p ≡ some bytes
      → json.params_from_slice bytes ≡ some p
  pub results_back :
      (r : TestResults) (bytes : List ℕ)
      → json.results_to_vec r ≡ some bytes
      → json.results_from_slice bytes ≡ some r

cookie_back : (cb : List ℕ) → length cb ≡ 8 → All IsByte cb → le_bytes_64 (from_le_bytes_64 cb) ≡ cb
cookie_back (a ∷ b ∷ c ∷ d ∷ e ∷ f ∷ g ∷ h ∷ []) l x =
    le_bytes_64-from_le_bytes_64 a b c d e f g h (omega arith) (omega arith) (omega arith)
      (omega arith) (omega arith) (omega arith) (omega arith) (omega arith)
cookie_back _ l x = absurd (omega arith)

mirror_roles :
    (dir : ℕ)
    → ((roles dir true).0 ≡ (roles dir false).1) × ((roles dir true).1 ≡ (roles dir false).0)
unfolding roles
mirror_roles zero = (refl, refl)
mirror_roles (suc zero) = (refl, refl)
mirror_roles (suc (suc zero)) = (refl, refl)
mirror_roles (suc (suc (suc dir))) = (refl, refl)

-- The server's plan is the client's, the other way round.
server_plan-client_params :
    (o : Opts) (cb : List ℕ)
    → length cb ≡ 8
    → All IsByte cb
    → o.length < 2 ^ 32
    → server_plan (client_params o cb) ≡ mirror (client_plan o cb)
unfolding server_plan client_params client_plan
server_plan-client_params o cb l x h =
    let cookie = cookie_back cb l x in
    let block : usize o.length ≡ o.length = omega arith in
    let (sends, receives) = mirror_roles (dir_of o) in cc

asked : (o : Opts) (cb : List ℕ) (n : ℕ) → n ≡ o.parallel → n ≡ (client_params o cb).parallel
unfolding client_params
asked o cb n e = e

take_connections_lem :
    (conns more : List Connection) → take_connections (length conns) (conns ++ more) ≡ some conns
unfolding take_connections
take_connections_lem [] more = refl
take_connections_lem (c ∷ conns) more = rw (take_connections_lem conns more) refl

module _ (json : Codec) (laws : IsCodec json) where
  serve_lem :
      (p : Params) (conns more : List Connection) (ls : List StreamStats) (chunks : List Chunk)
      (text : List ℕ)
      → recv_msg json.params_from_slice chunks ≡ value (some p)
      → length conns ≡ p.parallel
      → run_streams true (server_plan p) conns ≡ some ls
      → json.results_to_vec (to_results ls) ≡ some text
      → run_server json (some chunks) (conns ++ more) ≡ finished (framed (some text))
  unfolding run_server
  serve_lem p conns more ls chunks text e n s t =
      let enough =
        ap (λ k. take_connections k (conns ++ more)) (sym n) ∙ take_connections_lem conns more in
      ap (λ r. serve json r (conns ++ more)) e
      ∙ ap (transfer json p) enough
      ∙ ap (answer json) s
      ∙ ap (λ x. finished (framed x)) t

  dial_lem :
      (o : Opts) (cb : List ℕ) (conns more : List Connection) (ls : List StreamStats)
      (chunks : List Chunk) (remote : TestResults) (text : List ℕ)
      → recv_msg json.results_from_slice chunks ≡ value (some remote)
      → length conns ≡ o.parallel
      → run_streams false (client_plan o cb) conns ≡ some ls
      → json.params_to_vec (client_params o cb) ≡ some text
      → run_client json o (some cb) (some chunks) (conns ++ more)
        ≡ finished (record {
          sent = framed (some text);
          local = to_results ls;
          remote = remote;
          direction = direction_of (dir_of o);
          latency = o.latency;
        })
  unfolding run_client
  dial_lem o cb conns more ls chunks remote text e n s t =
      let enough =
        ap (λ k. take_connections k (conns ++ more)) (sym n) ∙ take_connections_lem conns more in
      ap (λ d. dial json o cb d chunks) enough
      ∙ ap (λ r. conclude json o cb r chunks) s
      ∙ ap (λ r. report json o cb ls (remote_of json r)) e
      ∙ ap
          (λ x. finished (record {
            sent = framed x;
            local = to_results ls;
            remote = remote;
            direction = direction_of (dir_of o);
            latency = o.latency;
          }))
          t

  -- In the p3 build, with a lawful codec, a random block of eight bytes, as many connections on
  -- both sides as the options say, a block below 2^32 bytes and texts below 2^32 - 4 bytes: if the
  -- streams of the client end by its own plan with some statistics, those of the server by the
  -- same plan with sending and receiving exchanged, and the frame that each side sends on the
  -- control connection reaches the other in portions cut in any way, then the server answers with
  -- the frame of its numbered statistics, and the client has sent the frame of its parameters and
  -- prints its own statistics and exactly those of the server, with the direction and the latency
  -- of its options.
  pub run_client-run_server :
      (o : Opts) (cb : List ℕ) (conns_c conns_s more_c more_s : List Connection)
      (stats_c stats_s : List StreamStats) (params results rest_c rest_s : List ℕ)
      (to_c to_s : List (List ℕ)) (late_c late_s : List Chunk)
      → length cb ≡ 8
      → All IsByte cb
      → o.length < 2 ^ 32
      → length conns_c ≡ o.parallel
      → length conns_s ≡ o.parallel
      → run_streams false (client_plan o cb) conns_c ≡ some stats_c
      → run_streams true (mirror (client_plan o cb)) conns_s ≡ some stats_s
      → json.params_to_vec (client_params o cb) ≡ some params
      → json.results_to_vec (to_results stats_s) ≡ some results
      → length params < 2 ^ 32 - 4
      → length results < 2 ^ 32 - 4
      → concat to_s ≡ framed (some params) ++ rest_s
      → concat to_c ≡ framed (some results) ++ rest_c
      → (run_server json (some (map complete to_s ++ late_s)) (conns_s ++ more_s)
          ≡ finished (framed (some results)))
        × (run_client json o (some cb) (some (map complete to_c ++ late_c)) (conns_c ++ more_c)
            ≡ finished (record {
              sent = framed (some params);
              local = to_results stats_c;
              remote = to_results stats_s;
              direction = direction_of (dir_of o);
              latency = o.latency;
            }))
  run_client-run_server o cb conns_c conns_s more_c more_s stats_c stats_s params results rest_c
        rest_s to_c to_s late_c late_s hl hb hs nc ns rc rs pt rt pl rl es ec =
      let got_params =
        recv_msg-framed json.params_from_slice params rest_s to_s late_s pl es
        ∙ ap value (laws.params_back _ params pt) in
      let got_results =
        recv_msg-framed json.results_from_slice results rest_c to_c late_c rl ec
        ∙ ap value (laws.results_back _ results rt) in
      let same = server_plan-client_params o cb hl hb hs in
      (
        serve_lem (client_params o cb) conns_s more_s stats_s (map complete to_s ++ late_s) results
            got_params (asked o cb _ ns) (ap (λ p. run_streams true p conns_s) same ∙ rs) rt,
        dial_lem o cb conns_c more_c stats_c (map complete to_c ++ late_c) (to_results stats_s)
            params got_results nc rc pt,
      )
