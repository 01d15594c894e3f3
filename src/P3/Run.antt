-- ===== src/P3/Run.antt =====
-- crates/netperf-p3/src/lib.rs: the program as a whole, from the command line on.
pub mod Both
use netperf.Prelude.{ℕ, zero, suc, String, Option, none, some, List, [], ◌∷◌, map, if◌then◌else◌}
use netperf.P3.Frames.{Chunk}
use netperf.P3.Transfer.{◌>>=◌}
use netperf.P3.Session.{
  Opts, Connection, Codec, Outcome, finished, failed, panicked, pending, Report, run_server,
  run_client,
}

abbrev pub Octets : Type 0
Octets = ℕ × ℕ × ℕ × ℕ

pub record Ipv4SocketAddress : Type 0 where
  pub port : ℕ
  pub address : Octets

-- `wasi:sockets`, `Ipv4Addr::from_str` and `getrandom::fill`; `none` is an error.
pub record Host : Type 1 where
  pub TcpSocket : Type 0
  -- the sockets that the program creates, by their number
  pub create : ℕ → Option TcpSocket
  pub bind : Ipv4SocketAddress → TcpSocket → Option TcpSocket
  pub connect : Ipv4SocketAddress → TcpSocket → Option TcpSocket
  -- the connections that come in, until the listener ends
  pub listen : TcpSocket → Option (List TcpSocket)
  -- what is met on a connection, as the control connection and as one for data
  pub control : TcpSocket → List Chunk
  pub streams : TcpSocket → Connection
  pub from_str : String → Option Octets
  pub random : Option (List ℕ)

-- What a side that ends well has done: written an answer, or made a report.
pub data Ran : Type 0 where
  answered : List ℕ → Ran
  reported : Report → Ran

abbrev pub unwrap_or {ℓ} : {A : Type ℓ} → Option A → A → A
unwrap_or none d = d
unwrap_or (some a) d = a

module _ (host : Host) where
  open host use {TcpSocket}

  unfoldable pub listen : (port : ℕ) → Option TcpSocket
  listen port = do s ← host.create 0; host.bind (record { port = port; address = (0, 0, 0, 0) }) s

  -- The `n`-th socket of a client.
  unfoldable pub connect : Octets → (port n : ℕ) → Option TcpSocket
  connect addr port n = do
    s ← host.create n
    host.connect (record { port = port; address = addr }) s

  made : Option TcpSocket → List Connection → List Connection
  made none conns = []
  made (some s) conns = host.streams s ∷ conns

  -- The data connections that can be made, up to the first that cannot.
  pub connect_all : Octets → (port n parallel : ℕ) → List Connection
  unfolding made
  connect_all addr port n zero = []
  connect_all addr port n (suc parallel) =
      made (connect addr port n) (connect_all addr port (suc n) parallel)

  module _ (json : Codec) where
    -- The first connection is the control connection.
    accept : Option (List TcpSocket) → Outcome (List ℕ)
    accept none = failed
    accept (some []) = run_server json none []
    accept (some (ctrl ∷ conns)) =
        run_server json (some (host.control ctrl)) (map host.streams conns)

    ended : {A : Type 0} → Outcome A → (A → Ran) → Outcome Ran
    ended (finished a) f = finished (f a)
    ended failed f = failed
    ended panicked f = panicked
    ended pending f = pending

    dial_all : Opts → Option Octets → Outcome Report
    unfolding connect_all
    dial_all o none = failed
    dial_all o (some addr) =
        run_client json o host.random (do ctrl ← connect addr o.port 0; some (host.control ctrl))
          (connect_all addr o.port 1 o.parallel)

    unfoldable pub run : Opts → Outcome Ran
    unfolding accept dial_all ended
    run o =
        if o.server
        then ended (accept (do lsock ← listen o.port; host.listen lsock)) answered
        else ended (dial_all o (host.from_str (unwrap_or o.client "127.0.0.1"))) reported
