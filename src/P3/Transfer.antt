-- ===== src/P3/Transfer.antt =====
-- crates/netperf-p3/src/lib.rs: the data loops, and both sides of a data connection.
pub mod Counts
pub mod Cookie
pub mod Ends
pub mod Agreement
use netperf.Prelude.{
  ℕ, suc, ◌+◌, ◌-◌, ◌*◌, ◌/◌, Bool, true, false, ◌&&◌, Option, none, some, List, [], ◌∷◌, ◌++◌,
  length, take, replicate, concat, ltb, leb, ◌==◌, if◌then◌else◌, u64,
}
use netperf.Core.Stats.{StreamStats, LatencyStats}
use netperf.Core.Dist.{from_samples, default}
use netperf.P3.Frames.{Chunk, complete, ended}

-- What the code awaits: `none` is no result of it, but a wait that nothing ends.
infixl 5 ◌>>=◌
abbrev pub ◌>>=◌ {ℓ κ} : {A : Type ℓ} {B : Type κ} → Option A → (A → Option B) → Option B
none >>= f = none
some a >>= f = f a

-- A round of the write loop: the time since the start at its head and the time that the write took,
-- in nanoseconds, and how many bytes `write_all` gave back.
pub record Turn : Type 0 where
  pub elapsed : ℕ
  pub write_ns : ℕ
  pub left : ℕ

-- The buffer holds zeros, so that its length is all there is to it. `moved` is how many of them the
-- stream has taken, which the code does not keep.
pub record Writer : Type 0 where
  pub buf : ℕ
  pub moved : ℕ
  pub total : ℕ
  pub samples : List ℕ

abbrev pub nanos_of_secs : ℕ → ℕ
nanos_of_secs s = s * 1_000_000_000

abbrev pub as_millis : ℕ → ℕ
as_millis ns = u64 (ns / 1_000_000)

-- `wrote` is counted against the block, also where the buffer is what a write gave back.
write_turn : (block : ℕ) (measure : Bool) → Turn → Writer → Writer
write_turn block measure t w = record {
  buf = if t.left == 0 then block else t.left;
  moved = w.moved + (w.buf - t.left);
  total = u64 (w.total + (block - t.left));
  samples = if measure then w.samples ++ u64 t.write_ns ∷ [] else w.samples;
}

pub write_loop : (block dur : ℕ) (measure : Bool) → List Turn → Writer → Option Writer
unfolding write_turn
write_loop block dur measure [] w = none
write_loop block dur measure (t ∷ turns) w =
    let w' = write_turn block measure t w in
    let rest = write_loop block dur measure turns w' in
    if ltb t.elapsed dur then (if block - t.left == 0 then some w' else rest) else some w

sent_stats : (measure : Bool) → ℕ → Writer → StreamStats
sent_stats measure elapsed w = record {
  sender = true;
  duration_millis = as_millis elapsed;
  bytes_transferred = w.total;
  syscalls = 0;
  latency =
      if measure
      then some (record {
        interval_ns = from_samples w.samples;
        throughput_bps = default;
        clock_baseline_ns = 0;
        warmup_discarded = 0;
      })
      else none;
}

-- The writes of one connection, and the time at their end.
pub record Sends : Type 0 where
  pub turns : List Turn
  pub finish : ℕ

-- The reads of one connection, and the time at their end.
pub record Receives : Type 0 where
  pub chunks : List Chunk
  pub finish : ℕ

abbrev pub start_writer : ℕ → Writer
start_writer block = record { buf = block; moved = 0; total = 0; samples = [] }

unfoldable pub write_data : (block secs : ℕ) (measure : Bool) → Sends → Option StreamStats
unfolding write_loop sent_stats
write_data block secs measure s = do
  w ← write_loop block (nanos_of_secs secs) measure s.turns (start_writer block)
  some (sent_stats measure s.finish w)

-- The bytes that it puts on its stream.
unfoldable pub data_of : (block secs : ℕ) (measure : Bool) → Sends → Option (List ℕ)
unfolding write_loop
data_of block secs measure s = do
  w ← write_loop block (nanos_of_secs secs) measure s.turns (start_writer block)
  some (replicate w.moved 0)

pub read_loop : List Chunk → ℕ → Option ℕ
read_loop [] total = none
read_loop (ended ∷ chunks) total = some total
read_loop (complete b ∷ chunks) total = read_loop chunks (u64 (total + length b))

received_stats : ℕ → ℕ → StreamStats
received_stats elapsed total = record {
  sender = false;
  duration_millis = as_millis elapsed;
  bytes_transferred = total;
  syscalls = 0;
  latency = none;
}

unfoldable pub read_data : (init_total : ℕ) → Receives → Option StreamStats
unfolding read_loop received_stats
read_data init_total r = do
  total ← read_loop r.chunks init_total
  some (received_stats r.finish total)

-- Both on a fresh stream. What carries a stream to its socket ends when its writer is dropped.
abbrev pub send_all : (block secs : ℕ) (measure : Bool) → Sends → Option StreamStats
send_all block secs measure s = write_data block secs measure s

abbrev pub recv_all : Receives → Option StreamStats
recv_all r = read_data 0 r

-- The write of the cookie at the head of a client's stream: how many of its bytes the stream takes,
-- and whether the write returns.
pub record Greeting : Type 0 where
  pub taken : ℕ
  pub returns : Bool

abbrev pub greeted : Greeting → Option (Unit {0})
greeted g = if g.returns then some tt else none

-- What a client's side of a data connection comes to: the bytes that its stream has carried, and
-- its statistics.
pub record Sent : Type 0 where
  pub stream : List ℕ
  pub stats : List StreamStats

-- A client's stream carries the cookie first; whether that write succeeds is not looked at. With
-- nothing to send the stream is left open, and the client goes when it has received all.
unfoldable pub client_conn :
    (cookie : List ℕ) (send_data recv_data : Bool) (block secs : ℕ) (measure : Bool)
    → Greeting
    → Sends
    → Receives
    → Option Sent
client_conn cookie true true block secs measure g s r = do
  _ ← greeted g
  sent ← write_data block secs measure s
  bytes ← data_of block secs measure s
  received ← recv_all r
  some (record { stream = take g.taken cookie ++ bytes; stats = sent ∷ received ∷ [] })
client_conn cookie true false block secs measure g s r = do
  _ ← greeted g
  sent ← write_data block secs measure s
  bytes ← data_of block secs measure s
  some (record { stream = take g.taken cookie ++ bytes; stats = sent ∷ [] })
client_conn cookie false true block secs measure g s r = do
  received ← recv_all r
  some (record { stream = take g.taken cookie; stats = received ∷ [] })
client_conn cookie false false block secs measure g s r = do
  _ ← greeted g
  some (record { stream = take g.taken cookie; stats = [] })

abbrev pub cookie_len : ℕ
cookie_len = 8

abbrev pub same_bytes : List ℕ → List ℕ → Bool
same_bytes [] [] = true
same_bytes (a ∷ as') (b ∷ bs) = a == b && same_bytes as' bs
same_bytes _ _ = false

-- The loop that reads the cookie: what it has when it ends, and the reads that are left.
pub cookie_loop : List Chunk → List ℕ → Option (List ℕ × List Chunk)
cookie_loop [] acc = if ltb (length acc) cookie_len then none else some (acc, [])
cookie_loop (ended ∷ chunks) acc =
    if ltb (length acc) cookie_len then some (acc, chunks) else some (acc, ended ∷ chunks)
cookie_loop (complete b ∷ chunks) acc =
    let rest = cookie_loop chunks (acc ++ b) in
    if ltb (length acc) cookie_len then rest else some (acc, complete b ∷ chunks)

-- With the cookie found: `leftover` data bytes came with it.
serve_data :
    (recv_data send_data : Bool) (block secs : ℕ) (measure : Bool) (leftover : ℕ)
    → Sends
    → Receives
    → Option (List StreamStats)
serve_data true true block secs measure leftover s r = do
  received ← read_data leftover r
  sent ← send_all block secs measure s
  some (sent ∷ received ∷ [])
serve_data true false block secs measure leftover s r = do
  received ← read_data leftover r
  some (received ∷ [])
serve_data false true block secs measure leftover s r = do
  sent ← send_all block secs measure s
  some (sent ∷ [])
serve_data false false block secs measure leftover s r = some []

unfoldable pub server_conn :
    (expected : List ℕ) (recv_data send_data : Bool) (block secs : ℕ) (measure : Bool)
    → Sends
    → Receives
    → Option (List StreamStats)
unfolding cookie_loop serve_data
server_conn expected recv_data send_data block secs measure s r = do
  (acc, chunks) ← cookie_loop r.chunks []
  if ltb (length acc) cookie_len
      then some []
      else if same_bytes (take cookie_len acc) expected
      then serve_data recv_data send_data block secs measure (u64 (length acc - cookie_len)) s
          (record r { chunks = chunks })
      else some []
