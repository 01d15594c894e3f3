-- ===== src/P2/Program.antt =====
-- crates/netperf-p2/src/lib.rs: the program from its options on, with the options of
-- crates/netperf-p2/src/common/opts.rs. The parsing of a command line is left out.
pub mod Hosting
use netperf.Prelude.{
  ℕ, zero, suc, ◌/◌, ◌%◌, ltb, String, Bool, Option, none, some, List, if◌then◌else◌,
}
use Prim.Native.String.{◌++◌, slice}
use netperf.P2.Data.{ClientOpts}
use netperf.P2.Result.{Result, ok, err, panic, diverged}
use netperf.P2.Runtime.{Runtime, Mpsc}
use netperf.P2.Controller.{ControllerMessage, Socket, TestController}
use netperf.P2.Controller.Loop.{Choice}
use netperf.P2.Server.{Event, Server, idle, run_server as accept_loop}
use netperf.P2.Session.{run_client as measure}

pub record ServerOpts : Type 0 where
  pub server : Bool

pub record CommonOpts : Type 0 where
  pub port : ℕ
  pub interval : ℕ

-- Without the verbosity.
pub record Opts : Type 0 where
  pub server_opts : ServerOpts
  pub client_opts : ClientOpts
  pub common_opts : CommonOpts

digit : ℕ → String
digit n = slice "0123456789" n (suc n)

-- A `u16` has five digits at most.
decimal : (digits : ℕ) → ℕ → String
unfolding digit
decimal zero n = ""
decimal (suc k) n =
    let tens = decimal k (n / 10) in if ltb n 10 then digit n else tens ++ digit (n % 10)

-- `format!("{}:{}", client_host, port)`.
unfoldable pub address_of : (client_host : String) → (port : ℕ) → String
unfolding decimal
address_of client_host port = client_host ++ ":" ++ decimal 5 port

module _ (env : Runtime) (queue : Mpsc (ControllerMessage (Socket env))) where
  -- What a run leaves behind: a server once it listens, or the controller of a client.
  pub data Ran : Type 0 where
    served : Option (Server env queue) → Ran
    measured : Option (TestController env) → Ran

  listen : Result (List (Event env queue)) → Result (Unit {0}) × Ran
  listen (ok events) =
      let ended = accept_loop env queue events (idle env queue) in (ended.0, served (some ended.1))
  listen (err e) = (err e, served none)
  listen panic = (panic, served none)
  listen diverged = (diverged, served none)

  -- `unwrap` of the host.
  dial :
      (cookie version : String)
      → CommonOpts
      → ClientOpts
      → Option String
      → (fuel : ℕ) → List (Choice (Socket env))
      → Result (Unit {0}) × Ran
  dial cookie version common_opts client_opts none fuel schedule = (panic, measured none)
  dial cookie version common_opts client_opts (some client_host) fuel schedule =
      let address = address_of client_host common_opts.port in
      let ended = measure env address cookie version client_opts fuel schedule in
      (ended.0, measured ended.1)

  -- `bind` says what the listener of a port meets, if it can be made; the cookie, the fuel and the
  -- schedule are those of a client.
  unfoldable pub run :
      (bind : ℕ → Result (List (Event env queue)))
      → (cookie version : String) → Opts
      → (fuel : ℕ) → List (Choice (Socket env))
      → Result (Unit {0}) × Ran
  unfolding listen dial
  run bind cookie version opts fuel schedule =
      if opts.server_opts.server
      then listen (bind opts.common_opts.port)
      else dial cookie version opts.common_opts opts.client_opts opts.client_opts.client fuel
          schedule
