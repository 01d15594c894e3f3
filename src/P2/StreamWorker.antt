-- ===== src/P2/StreamWorker.antt =====
-- crates/netperf-p2/src/common/stream_worker.rs: a worker that sends or receives on one stream.
-- Instants and durations are nanoseconds; subtracting a later instant gives 0, as in the source.
pub mod Run
pub mod Totals
pub mod Clock
use netperf.Prelude.{
  ℕ, ◌+◌, ◌-◌, ◌*◌, ◌/◌, ◌^◌, Bool, true, false, Option, none, some, List, [], ◌∷◌, ◌++◌, length,
  get_or, if◌then◌else◌, ltb, leb, ◌==◌, u64,
}
use netperf.Core.Stats.{StreamStats, LatencyStats}
use netperf.Core.Sort.{sort_unstable}
use netperf.Core.Dist.{from_samples}
use netperf.P2.Data.{TestParameters}
use netperf.P2.Result.{Result, ok, err, panic, diverged, message}
use netperf.P2.Runtime.{WorkerMessage, start_load, terminate}

-- What an iteration of the loop meets: the branch that the select takes, with the instant of a
-- tick, the result of a read or write, and the clock behind it.
pub data Event : Type 0 where
  deadline : Event
  msg : Option WorkerMessage → Event
  tick : ℕ → Event
  io : Result ℕ → ℕ → Event

-- The arguments of one call of `print_stats`: offset, duration, bytes, system calls.
pub record Interval : Type 0 where
  pub offset_millis : ℕ
  pub duration_millis : ℕ
  pub bytes : ℕ
  pub syscalls : ℕ

-- The variables of the loop; `printed` is what was reported so far.
pub record Loop : Type 0 where
  pub last_tick : ℕ
  pub bytes_transferred : ℕ
  pub syscalls : ℕ
  pub current_bytes : ℕ
  pub current_syscalls : ℕ
  pub samples : List ℕ
  pub tput : List ℕ
  pub warmup_discarded : ℕ
  pub t_prev : ℕ
  pub win_start : ℕ
  pub win_bytes : ℕ
  pub printed : List Interval

-- What stays fixed during the loop.
pub record Setting : Type 0 where
  pub start_time : ℕ
  pub measure : Bool
  pub warmup : ℕ
  pub clock_baseline_ns : ℕ

abbrev pub nanos_of_secs : ℕ → ℕ
nanos_of_secs s = s * 1_000_000_000

-- `Duration::from_millis(10)`
abbrev pub win : ℕ
win = 10_000_000

-- `as_millis().try_into().unwrap()`
abbrev pub millis : ℕ → Result ℕ
millis d = if ltb (d / 1_000_000) (2 ^ 64) then ok (d / 1_000_000) else panic

abbrev pub warmup_of : ℕ → ℕ
warmup_of time_seconds = if ltb 2 time_seconds then nanos_of_secs 1 else 0

abbrev pub start_loop : ℕ → Loop
start_loop start = record {
  last_tick = start;
  bytes_transferred = 0;
  syscalls = 0;
  current_bytes = 0;
  current_syscalls = 0;
  samples = [];
  tput = [];
  warmup_discarded = 0;
  t_prev = start;
  win_start = start;
  win_bytes = 0;
  printed = [];
}

-- The branch of `ticker.tick()`.
on_tick : Setting → ℕ → Loop → Result Loop
on_tick cfg at w = elim (millis (w.last_tick - cfg.start_time)) [
  | ok offset ↦ elim (millis (at - w.last_tick)) [
    | ok duration ↦
        let line : Interval = record {
          offset_millis = offset;
          duration_millis = duration;
          bytes = w.current_bytes;
          syscalls = w.current_syscalls;
        } in
        ok (record w {
          printed = w.printed ++ line ∷ [];
          current_bytes = 0;
          current_syscalls = 0;
          last_tick = at;
        })
    | _ ↦ panic
  ]
  | _ ↦ panic
]

-- `goodput bytes elapsed` is `(bytes as f64 * 8.0 / s) as u64` for `s` the seconds in `elapsed`.
module _ (goodput : ℕ → ℕ → ℕ) where
  close_window : ℕ → Loop → Loop
  close_window now w =
      let elapsed = now - w.win_start in
      if leb win elapsed
      then record w {
        tput = w.tput ++ goodput w.win_bytes elapsed ∷ [];
        win_start = now;
        win_bytes = 0;
      }
      else w

  take_sample : Setting → ℕ → Loop → Loop
  take_sample cfg now w =
      if leb cfg.warmup (now - cfg.start_time)
      then record w { samples = w.samples ++ (u64 (now - w.t_prev) - cfg.clock_baseline_ns) ∷ [] }
      else record w { warmup_discarded = u64 (w.warmup_discarded + 1) }

  -- One clock read feeds the window, the sample and `t_prev`.
  measure_io : Setting → ℕ → ℕ → Loop → Loop
  unfolding close_window take_sample
  measure_io cfg count now w =
      let w' =
        take_sample cfg now
          (close_window now (record w { win_bytes = u64 (w.win_bytes + count) })) in
      record w' { t_prev = now }

  -- The branch of the read or write, for a count of bytes.
  on_io : Setting → ℕ → ℕ → Loop → Loop
  unfolding measure_io
  on_io cfg count now w =
      let counted = record w {
        current_bytes = u64 (w.current_bytes + count);
        bytes_transferred = u64 (w.bytes_transferred + count);
      } in
      let called = record counted {
        syscalls = u64 (w.syscalls + 1);
        current_syscalls = u64 (w.current_syscalls + 1);
      } in
      if ltb 0 count
      then (if cfg.measure then measure_io cfg count now called else called)
      else counted

  -- The loop; with no event left it still waits.
  pub worker_loop : Setting → List Event → Loop → Result Loop
  unfolding on_tick on_io
  worker_loop cfg [] w = diverged
  worker_loop cfg (deadline ∷ events) w = ok w
  worker_loop cfg (msg (some start_load) ∷ events) w = worker_loop cfg events w
  worker_loop cfg (msg (some terminate) ∷ events) w = ok w
  worker_loop cfg (msg none ∷ events) w = ok w
  worker_loop cfg (tick at ∷ events) w = elim (on_tick cfg at w) [
    | ok w' ↦ worker_loop cfg events w'
    | err e ↦ err e
    | panic ↦ panic
    | diverged ↦ diverged
  ]
  worker_loop cfg (io (ok count) now ∷ events) w =
      let more = worker_loop cfg events (on_io cfg count now w) in
      if ltb 0 count then more else ok (on_io cfg count now w)
  worker_loop cfg (io (err e) now ∷ events) w = err e
  worker_loop cfg (io panic now ∷ events) w = panic
  worker_loop cfg (io diverged now ∷ events) w = diverged

-- The deltas of `calibrate_clock` for the reads behind the first, and their median.
abbrev pub deltas : ℕ → List ℕ → List ℕ
deltas prev [] = []
deltas prev (now ∷ reads) = u64 (now - prev) ∷ deltas now reads

unfoldable pub calibrate_clock : ℕ → List ℕ → ℕ
calibrate_clock first reads =
    let sorted = sort_unstable (deltas first reads) in get_or sorted (length sorted / 2) 0
