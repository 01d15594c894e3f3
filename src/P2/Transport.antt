-- ===== src/P2/Transport.antt =====
-- What the crate uses of tokio's sockets and of serde_json, as parameters, and their documented
-- behaviour.
use netperf.Prelude.{ℕ, ◌≤◌, ◌<◌, ◌^◌, ◌≡◌, ◌≢◌, List, [], ◌++◌, Option, some, length}
use netperf.Prelude.Bytes.{be_bytes}
use netperf.P2.Result.{Result, ok, err, io}

-- A connected byte stream. `read s n` is `s.take(n).read_buf(..)`; no bytes mean the end.
pub record Transport : Type 1 where
  pub Socket : Type 0
  pub read : ℕ → Socket → Result (List ℕ) × Socket
  pub read_u32 : Socket → Result ℕ × Socket
  pub write_all : List ℕ → Socket → Result (Unit {0}) × Socket

pub record Receipt (t : Transport) (IsOpen : t.Socket → Type 0) (pending : t.Socket → List ℕ)
    (n : ℕ) (s : t.Socket) : Type 0 where
  pub bytes : List ℕ
  pub after : t.Socket
  pub result : t.read n s ≡ (ok bytes, after)
  pub still_open : IsOpen after
  pub in_order : pending s ≡ bytes ++ pending after
  pub at_most : length bytes ≤ n
  pub progress : 0 < n → pending s ≢ [] → 0 < length bytes

-- A stream in working order: `pending` is what the peer has sent or will send before it closes.
-- Reads give it in order, in portions of any size, and never more than was asked for.
pub record Reads (t : Transport) : Type 1 where
  pub IsOpen : t.Socket → Type 0
  pub pending : t.Socket → List ℕ
  pub receipt : (n : ℕ) (s : t.Socket) → IsOpen s → Receipt t IsOpen pending n s
  -- `read_u32` is big-endian, and fails if the stream ends inside the number.
  pub number :
      (n : ℕ) (rest : List ℕ) (s : t.Socket)
      → IsOpen s
      → n < 2 ^ 32
      → pending s ≡ be_bytes n ++ rest
      → (s' : t.Socket) × (t.read_u32 s ≡ (ok n, s')) × IsOpen s' × (pending s' ≡ rest)
  pub no_number :
      (s : t.Socket)
      → IsOpen s
      → length (pending s) < 4
      → (s' : t.Socket) × (t.read_u32 s ≡ (err io, s'))

-- Writing: `sent` is what was written so far.
pub record Writes (t : Transport) : Type 1 where
  pub IsOpen : t.Socket → Type 0
  pub sent : t.Socket → List ℕ
  pub written :
      (bytes : List ℕ) (s : t.Socket)
      → IsOpen s
      → (s' : t.Socket) × (t.write_all bytes s ≡ (ok tt, s'))
        × IsOpen s'
        × (sent s' ≡ sent s ++ bytes)

-- serde_json at one type.
pub record Json (A : Type 0) : Type 0 where
  pub to_string : A → Option (List ℕ)
  pub from_slice : List ℕ → Option A

pub record IsJson (A : Type 0) (j : Json A) : Type 0 where
  pub from_slice-to_string :
      (a : A) (bytes : List ℕ) → j.to_string a ≡ some bytes → j.from_slice bytes ≡ some a

-- One socket for both directions: writing leaves what arrives alone, and reading what was sent.
pub record Duplex (t : Transport) : Type 1 where
  pub reads : Reads t
  pub writes : Writes t
  pub write_keeps :
      (bytes : List ℕ) (s : t.Socket)
      → reads.IsOpen s
      → reads.IsOpen (t.write_all bytes s).1
        × (reads.pending (t.write_all bytes s).1 ≡ reads.pending s)
  pub read_keeps :
      (n : ℕ) (s : t.Socket)
      → writes.IsOpen s
      → writes.IsOpen (t.read n s).1 × (writes.sent (t.read n s).1 ≡ writes.sent s)
  pub read_u32_keeps :
      (s : t.Socket)
      → writes.IsOpen s
      → writes.IsOpen (t.read_u32 s).1 × (writes.sent (t.read_u32 s).1 ≡ writes.sent s)
