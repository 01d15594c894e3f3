-- ===== src/P3/Run/Both.antt =====
-- The program on both sides of a test, from the command lines on.
use mathlib.Core.List.{append-nil}
use netperf.Prelude.{
  ℕ, suc, ◌-◌, ◌^◌, ◌<◌, ◌≡◌, refl, ap, sym, ◌∙◌, true, false, some, List, [], ◌∷◌, ◌++◌, map,
  length, concat, All, if◌then◌else◌, Bool, Option,
}
use netperf.Core.Stats.{StreamStats}
use netperf.P3.Roles.{direction_of}
use netperf.P3.Frames.{Chunk, complete, framed}
use netperf.P3.Transfer.{◌>>=◌}
use netperf.P3.Session.{
  Opts, Connection, Codec, Outcome, finished, run_streams, to_results, client_plan, client_params,
  dir_of, run_client, run_server,
}
use netperf.P3.Session.Negotiation.{IsByte, IsCodec, mirror, run_client-run_server}
use netperf.P3.Run.{
  Octets, Host, Ran, answered, reported, unwrap_or, listen, connect, connect_all, run, made, accept,
  dial_all, ended,
}

module _ (host : Host) where
  -- The connections of a client, from its `n`-th socket on.
  abbrev pub Connects : Octets → (port n : ℕ) → List Connection → Type 0
  Connects addr port n [] = Unit
  Connects addr port n (c ∷ conns) =
      ((s : Host.TcpSocket host) × (connect host addr port n ≡ some s) × (Host.streams host s ≡ c))
      × Connects addr port (suc n) conns

  connect_all-Connects :
      (addr : Octets) (port n : ℕ) (conns : List Connection)
      → Connects addr port n conns
      → connect_all host addr port n (length conns) ≡ conns
  unfolding connect_all made
  connect_all-Connects addr port n [] h = refl
  connect_all-Connects addr port n (c ∷ conns) h =
      let (s, e, same) = h.0 in
      ap (λ x. made host x (connect_all host addr port (suc n) (length conns))) e
      ∙ ap (λ x. x ∷ connect_all host addr port (suc n) (length conns)) same
      ∙ ap (λ l. c ∷ l) (connect_all-Connects addr port (suc n) conns h.1)

  -- A server's listener: the control connection and what comes behind it.
  pub record Listens (o : Opts) (ctrl : List Chunk) (conns : List Connection) : Type 0 where
    pub is_server : o.server ≡ true
    pub socket : Host.TcpSocket host
    pub control : Host.TcpSocket host
    pub others : List (Host.TcpSocket host)
    pub bound : listen host o.port ≡ some socket
    pub accepted : Host.listen host socket ≡ some (control ∷ others)
    pub to_read : Host.control host control ≡ ctrl
    pub data_connections : map (Host.streams host) others ≡ conns

  -- A client whose host is an address, and whose connections are made.
  pub record Dials (o : Opts) (cb : List ℕ) (ctrl : List Chunk) (conns : List Connection)
      : Type 0 where
    pub is_client : o.server ≡ false
    pub addr : Octets
    pub parsed : Host.from_str host (unwrap_or o.client "127.0.0.1") ≡ some addr
    pub filled : Host.random host ≡ some cb
    pub control : Host.TcpSocket host
    pub connected : connect host addr o.port 0 ≡ some control
    pub to_read : Host.control host control ≡ ctrl
    pub data_connections : Connects addr o.port 1 conns

  module _ (json : Codec) (o : Opts) (ctrl : List Chunk) (conns : List Connection) where
    -- The choice of the side.
    abbrev chosen : Bool → Outcome Ran
    chosen b =
        if b
        then ended host json (accept host json (listen host o.port >>= host.listen)) answered
        else ended host json (dial_all host json o (host.from_str (unwrap_or o.client "127.0.0.1")))
            reported

    run-Listens :
        Listens o ctrl conns
        → run host json o ≡ ended host json (run_server json (some ctrl) conns) answered
    unfolding run accept
    run-Listens h =
        ap chosen h.is_server
        ∙ ap (λ x. ended host json (accept host json (x >>= host.listen)) answered) h.bound
        ∙ ap (λ x. ended host json (accept host json x) answered) h.accepted
        ∙ ap (λ x. ended host json (run_server json (some x) (map host.streams h.others)) answered)
            h.to_read
        ∙ ap (λ x. ended host json (run_server json (some ctrl) x) answered) h.data_connections

    run-Dials :
        (cb : List ℕ)
        → Dials o cb ctrl conns
        → length conns ≡ o.parallel
        → run host json o ≡ ended host json (run_client json o (some cb) (some ctrl) conns) reported
    unfolding run dial_all
    run-Dials cb h l =
        let made_all =
          ap (connect_all host h.addr o.port 1) (sym l)
          ∙ connect_all-Connects h.addr o.port 1 conns h.data_connections in
        ap chosen h.is_client
        ∙ ap (λ x. ended host json (dial_all host json o x) reported) h.parsed
        ∙ ap
            (λ x.
              ended host json
                (run_client json o x (connect host h.addr o.port 0 >>= to_control)
                  (connect_all host h.addr o.port 1 o.parallel))
                reported)
            h.filled
        ∙ ap
            (λ x.
              ended host json
                (run_client json o (some cb) (x >>= to_control)
                  (connect_all host h.addr o.port 1 o.parallel))
                reported)
            h.connected
        ∙ ap
            (λ x.
              ended host json
                (run_client json o (some cb) (some x) (connect_all host h.addr o.port 1 o.parallel))
                reported)
            h.to_read
        ∙ ap (λ x. ended host json (run_client json o (some cb) (some ctrl) x) reported) made_all
      where
        to_control : Host.TcpSocket host → Option (List Chunk)
        to_control ctrl = some (host.control ctrl)

-- In the p3 build, from the command lines on: with a lawful codec, a random block of eight bytes
-- and a block size below 2^32 bytes, let the server listen, and meet a control connection and at
-- least as many data connections as the client's options say; let the client be given the address
-- of a host, and all its connections be made. If the streams of the client end by its own plan
-- with some statistics, those of the server by the same plan with sending and receiving exchanged,
-- the texts are below 2^32 - 4 bytes and the frame that each side sends on the control connection
-- reaches the other in portions cut in any way, then `run` ends well on both sides: the server has
-- answered with the frame of its numbered statistics, and the client has sent the frame of its
-- parameters and reports its own statistics and exactly those of the server, with the direction
-- and the latency of its options.
pub run-Both :
    (server client : Host) (json : Codec)
    → IsCodec json
    → (os oc : Opts) (cb : List ℕ) (conns_c conns_s more : List Connection)
      (stats_c stats_s : List StreamStats) (params results rest_c rest_s : List ℕ)
      (to_c to_s : List (List ℕ)) (late_c late_s : List Chunk)
    → Listens server os (map complete to_s ++ late_s) (conns_s ++ more)
    → Dials client oc cb (map complete to_c ++ late_c) conns_c
    → length cb ≡ 8
    → All IsByte cb
    → oc.length < 2 ^ 32
    → length conns_c ≡ oc.parallel
    → length conns_s ≡ oc.parallel
    → run_streams false (client_plan oc cb) conns_c ≡ some stats_c
    → run_streams true (mirror (client_plan oc cb)) conns_s ≡ some stats_s
    → json.params_to_vec (client_params oc cb) ≡ some params
    → json.results_to_vec (to_results stats_s) ≡ some results
    → length params < 2 ^ 32 - 4
    → length results < 2 ^ 32 - 4
    → concat to_s ≡ framed (some params) ++ rest_s
    → concat to_c ≡ framed (some results) ++ rest_c
    → (run server json os ≡ finished (answered (framed (some results))))
      × (run client json oc
          ≡ finished (
              reported (record {
                sent = framed (some params);
                local = to_results stats_c;
                remote = to_results stats_s;
                direction = direction_of (dir_of oc);
                latency = oc.latency;
              })))
unfolding ended
run-Both server client json laws os oc cb conns_c conns_s more stats_c stats_s params results rest_c
      rest_s to_c to_s late_c late_s hs hc hl hb hk nc ns rc rs pt rt pl rl es ec =
    let (served, told) =
      run_client-run_server json laws oc cb conns_c conns_s [] more stats_c stats_s params results
        rest_c rest_s to_c to_s late_c late_s hl hb hk nc ns rc rs pt rt pl rl es ec in
    let all =
      ap (run_client json oc (some cb) (some (map complete to_c ++ late_c)))
        (sym (append-nil conns_c)) in
    (
      run-Listens server json os (map complete to_s ++ late_s) (conns_s ++ more) hs
          ∙ ap (λ x. ended server json x answered) served,
      run-Dials client json oc (map complete to_c ++ late_c) conns_c cb hc nc
          ∙ ap (λ x. ended client json x reported) (all ∙ told),
    )
