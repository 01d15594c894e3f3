-- ===== src/Core/Ui.antt =====
-- crates/netperf-core/src/ui.rs: what the reports print, up to the layout of a line.
pub mod Sums
pub mod Agreement
use Prim.Native.Nat.{max}
use netperf.Prelude.{
  ℕ, suc, ◌+◌, ◌*◌, String, Bool, true, false, Option, none, some, List, [], ◌∷◌, ◌++◌, length, ltb,
  ◌==◌, ◌||◌, if◌then◌else◌, u64,
}
use netperf.Prelude.Dicts.{get}
use netperf.Core.Stats.{
  Direction, client_to_server, server_to_client, bidirectional, Dist, LatencyStats, StreamStats,
  TestResults,
}

abbrev pub kbytes : ℕ
kbytes = 1024

abbrev pub mbytes : ℕ
mbytes = 1024 * kbytes

abbrev pub gbytes : ℕ
gbytes = 1024 * mbytes

abbrev pub tbytes : ℕ
tbytes = 1024 * gbytes

abbrev pub kbits : ℕ
kbits = 1000

abbrev pub mbits : ℕ
mbits = 1000 * kbits

abbrev pub gbits : ℕ
gbits = 1000 * mbits

abbrev pub tbits : ℕ
tbits = 1000 * gbits

-- A number as it is, or `n as f64 / unit as f64` with two digits, and the name of the unit.
pub data Shown : Type 0 where
  whole : ℕ → String → Shown
  scaled : (n unit : ℕ) → String → Shown

unfoldable pub humanize_bytes : ℕ → Shown
humanize_bytes bytes =
    if ltb bytes kbytes
    then whole bytes "B"
    else if ltb bytes mbytes
    then scaled bytes kbytes "KiB"
    else if ltb bytes gbytes
    then scaled bytes mbytes "MiB"
    else if ltb bytes tbytes
    then scaled bytes gbytes "GiB"
    else scaled bytes tbytes "TiB"

unfoldable pub humanize_ns : ℕ → Shown
humanize_ns ns =
    if ltb ns 1_000
    then whole ns "ns"
    else if ltb ns 1_000_000
    then scaled ns 1_000 "µs"
    else if ltb ns 1_000_000_000
    then scaled ns 1_000_000 "ms"
    else scaled ns 1_000_000_000 "s"

-- The limits are floats that 64-bit numbers round to without passing them.
unfoldable pub humanize_bps : ℕ → Shown
humanize_bps bps =
    if ltb bps 1_000
    then whole bps "bits/sec"
    else if ltb bps 1_000_000
    then scaled bps 1_000 "Kbits/sec"
    else if ltb bps 1_000_000_000
    then scaled bps 1_000_000 "Mbits/sec"
    else scaled bps 1_000_000_000 "Gbits/sec"

-- The rate is a float, as is the test of it. `rate_below limit bits millis` is that test.
pub data Rate : Type 0 where
  rate : (bits millis unit : ℕ) → String → Rate

unfoldable pub humanize_bitrate :
    (rate_below : ℕ → ℕ → ℕ → Bool) → (bytes duration_millis : ℕ) → Rate
humanize_bitrate rate_below bytes duration_millis =
    let bits = u64 (bytes * 8) in
    if rate_below kbits bits duration_millis
    then rate bits duration_millis 1 "Bits/sec"
    else if ltb bytes mbits
    then rate bits duration_millis kbits "Kbits/sec"
    else if ltb bytes gbits
    then rate bits duration_millis mbits "Mbits/sec"
    else if ltb bytes tbits
    then rate bits duration_millis gbits "Gbits/sec"
    else rate bits duration_millis tbits "Tbits/sec"

-- What `print_stats` puts on a line; no number is a sum.
pub record Printed : Type 0 where
  pub id : Option ℕ
  pub offset_millis : ℕ
  pub end_point : ℕ
  pub transfer : Shown
  pub bitrate : Rate
  pub sender : Bool

unfoldable pub print_stats :
    (rate_below : ℕ → ℕ → ℕ → Bool)
    → Option ℕ
    → (offset_from_start_millis duration_millis bytes_transferred : ℕ) → (sender : Bool) → Printed
unfolding humanize_bytes humanize_bitrate
print_stats rate_below id offset_from_start_millis duration_millis bytes_transferred sender =
    record {
      id = id;
      offset_millis = offset_from_start_millis;
      end_point = u64 (offset_from_start_millis + duration_millis);
      transfer = humanize_bytes bytes_transferred;
      bitrate = humanize_bitrate rate_below bytes_transferred duration_millis;
      sender = sender;
    }

-- A call of `print_stats` by a summary, whose offset is 0; no number is a sum.
pub record Line : Type 0 where
  pub id : Option ℕ
  pub duration_millis : ℕ
  pub bytes_transferred : ℕ
  pub sender : Bool

pub record Totals : Type 0 where
  pub sender_duration_millis : ℕ
  pub receiver_duration_millis : ℕ
  pub sender_bytes_transferred : ℕ
  pub receiver_bytes_transferred : ℕ

abbrev pub no_totals : Totals
no_totals = record {
  sender_duration_millis = 0;
  receiver_duration_millis = 0;
  sender_bytes_transferred = 0;
  receiver_bytes_transferred = 0;
}

abbrev pub line_of : ℕ → StreamStats → Line
line_of id s = record {
  id = some id;
  duration_millis = s.duration_millis;
  bytes_transferred = s.bytes_transferred;
  sender = s.sender;
}

add_line : Line → Totals → Totals
add_line l t =
    if l.sender
    then record t {
      sender_bytes_transferred = u64 (t.sender_bytes_transferred + l.bytes_transferred);
      sender_duration_millis = max t.sender_duration_millis l.duration_millis;
    }
    else record t {
      receiver_bytes_transferred = u64 (t.receiver_bytes_transferred + l.bytes_transferred);
      receiver_duration_millis = max t.receiver_duration_millis l.duration_millis;
    }

abbrev pub is_one_way : Direction → Bool
is_one_way bidirectional = false
is_one_way _ = true

abbrev pub lines_of_remote : ℕ → Option StreamStats → List Line
lines_of_remote id (some s) = line_of id s ∷ []
lines_of_remote id none = []

-- The lines of one local stream: its own, and the remote side's of a test in one direction.
abbrev pub lines_of_stream : TestResults → Direction → ℕ × StreamStats → List Line
lines_of_stream remote direction (id, s) =
    line_of id s ∷ (if is_one_way direction then lines_of_remote id (get id remote.streams) else [])

add_lines : List Line → Totals → Totals
unfolding add_line
add_lines [] t = t
add_lines (l ∷ ls) t = add_lines ls (add_line l t)

-- The loop over the local streams, in the order of iteration: the lines and the totals.
summary_loop : TestResults → Direction → List (ℕ × StreamStats) → Totals → List Line × Totals
unfolding add_lines
summary_loop remote direction [] t = ([], t)
summary_loop remote direction (entry ∷ streams) t =
    let lines = lines_of_stream remote direction entry in
    let rest = summary_loop remote direction streams (add_lines lines t) in
    (lines ++ rest.0, rest.1)

abbrev pub sum_lines : Totals → List Line
sum_lines t =
    record {
      id = none;
      duration_millis = t.sender_duration_millis;
      bytes_transferred = t.sender_bytes_transferred;
      sender = true;
    }
    ∷ record {
      id = none;
      duration_millis = t.receiver_duration_millis;
      bytes_transferred = t.receiver_bytes_transferred;
      sender = false;
    }
    ∷ []

unfoldable pub print_summary : TestResults → TestResults → Direction → List Line
unfolding summary_loop
print_summary local_results remote_results direction =
    let all = summary_loop remote_results direction local_results.streams no_totals in
    all.0 ++ (if ltb 1 (length local_results.streams) then sum_lines all.1 else [])
