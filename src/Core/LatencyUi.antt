-- ===== src/Core/LatencyUi.antt =====
-- crates/netperf-core/src/ui.rs: what the latency summary prints, up to the layout of a line.
pub mod Lines
use Prim.Native.Nat.{max}
use netperf.Prelude.{
  ℕ, suc, ◌+◌, ◌*◌, String, Bool, true, false, Option, none, some, List, [], ◌∷◌, ◌++◌, length, ltb,
  ◌==◌, ◌||◌, if◌then◌else◌, u64,
}
use netperf.Prelude.Dicts.{get}
use netperf.Core.Stats.{
  Direction, client_to_server, server_to_client, bidirectional, Dist, LatencyStats, StreamStats,
  TestResults,
}

-- What is printed of one side's latency of one stream: whether that side sends, the distribution of
-- its intervals, and the goodput with its distribution, the baseline and the warm-up, if measured.
pub record LatencyLine : Type 0 where
  pub id : ℕ
  pub sender : Bool
  pub intervals : Dist
  pub goodput : Option (Dist × ℕ × ℕ)

abbrev pub has_latency : Option LatencyStats → Bool
has_latency (some lat) = true
has_latency none = false

abbrev pub any_latency : List (ℕ × StreamStats) → Bool
any_latency [] = false
any_latency ((id, s) ∷ streams) = has_latency s.latency || any_latency streams

-- A `BTreeSet`, as the list of its elements in ascending order.
insert_id : ℕ → List ℕ → List ℕ
insert_id k [] = k ∷ []
insert_id k (i ∷ ids) =
    if ltb k i then k ∷ i ∷ ids else if k == i then i ∷ ids else i ∷ insert_id k ids

add_ids : List (ℕ × StreamStats) → List ℕ → List ℕ
unfolding insert_id
add_ids [] ids = ids
add_ids ((id, s) ∷ streams) ids = add_ids streams (insert_id id ids)

latency_line : ℕ → StreamStats → LatencyStats → LatencyLine
latency_line id s lat = record {
  id = id;
  sender = s.sender;
  intervals = lat.interval_ns;
  goodput =
      if ltb 0 lat.throughput_bps.count
      then some (lat.throughput_bps, lat.clock_baseline_ns, lat.warmup_discarded)
      else none;
}

lines_of_latency : ℕ → StreamStats → Option LatencyStats → List LatencyLine
unfolding latency_line
lines_of_latency id s (some lat) = latency_line id s lat ∷ []
lines_of_latency id s none = []

-- One side of one stream: nothing if it has no such stream, or no latency of it.
pub latency_of_side : ℕ → Option StreamStats → List LatencyLine
unfolding lines_of_latency
latency_of_side id (some s) = lines_of_latency id s s.latency
latency_of_side id none = []

latency_loop : TestResults → TestResults → List ℕ → List LatencyLine
unfolding latency_of_side
latency_loop local remote [] = []
latency_loop local remote (id ∷ ids) =
    latency_of_side id (get id local.streams)
    ++ (latency_of_side id (get id remote.streams) ++ latency_loop local remote ids)

-- No line and no heading without a measurement.
unfoldable pub print_latency_summary : TestResults → TestResults → Option (List LatencyLine)
unfolding add_ids latency_loop
print_latency_summary local remote =
    if any_latency local.streams || any_latency remote.streams
    then some (latency_loop local remote (add_ids remote.streams (add_ids local.streams [])))
    else none
