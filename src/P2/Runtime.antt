-- ===== src/P2/Runtime.antt =====
-- What the controller uses of tokio besides the sockets: bounded channels, tasks and connections,
-- as parameters, and the documented behaviour of the channels.
use netperf.Prelude.{ℕ, ◌≤◌, ◌<◌, ◌≡◌, Bool, true, false, String, List, [], ◌∷◌, ◌++◌, length}
use netperf.Core.Stats.{StreamStats}
use netperf.P2.Data.{TestParameters}
use netperf.P2.Control.{ServerEnvelope, ClientEnvelope}
use netperf.P2.Result.{Result}
use netperf.P2.Transport.{Transport, Json}

-- `tokio::sync::mpsc::channel(n)` and `try_send`, which says whether the message was taken.
pub record Mpsc (M : Type 0) : Type 1 where
  pub Channel : Type 0
  pub channel : ℕ → Channel
  pub try_send : M → Channel → Bool × Channel

-- A bounded queue: what waits in it, how many it takes, and whether its receiver is alive.
pub record IsMpsc (M : Type 0) (q : Mpsc M) : Type 0 where
  pub waiting : q.Channel → List M
  pub capacity : q.Channel → ℕ
  pub waiting-channel : (n : ℕ) → waiting (q.channel n) ≡ []
  pub capacity-channel : (n : ℕ) → capacity (q.channel n) ≡ n
  pub taken :
      (m : M) (c : q.Channel)
      → length (waiting c) < capacity c
      → ((q.try_send m c).0 ≡ true)
        × (waiting (q.try_send m c).1 ≡ waiting c ++ m ∷ [])
        × (capacity (q.try_send m c).1 ≡ capacity c)
  pub full :
      (m : M) (c : q.Channel)
      → capacity c ≤ length (waiting c)
      → ((q.try_send m c).0 ≡ false) × (waiting (q.try_send m c).1 ≡ waiting c)

pub data WorkerMessage : Type 0 where
  start_load terminate : WorkerMessage

-- What awaiting a task's handle gives: its result, a failure of the task, or nothing in time.
pub data Join : Type 0 where
  joined : Result StreamStats → Join
  join_error : Join
  late : Join

-- The worker as `StreamWorker::new` makes it; its receiver is the other end of the channel.
pub record StreamWorker (Socket : Type 0) : Type 0 where
  pub id : ℕ
  pub stream : Socket
  pub params : TestParameters
  pub is_sending : Bool

pub record Runtime : Type 1 where
  pub transport : Transport
  pub server_json : Json ServerEnvelope
  pub client_json : Json ClientEnvelope
  pub mpsc : Mpsc WorkerMessage
  -- `TcpStream::connect` of an address: first the control socket, then stream after stream; a
  -- repeated attempt at the same stream has the same answer
  pub connect : String → ℕ → Result (Transport.Socket transport)
  -- what comes of the task that runs a worker, of which no more is known than that its handle gives
  -- it at the end; the messages that it is sent are in its channel
  pub spawn : StreamWorker (Transport.Socket transport) → Join
