-- ===== src/P2/StreamWorker/Run.antt =====
-- `run_worker`: what comes before and after the loop.
pub mod Outcome
use netperf.Prelude.{
  ℕ, zero, suc, ◌+◌, ◌*◌, ◌-◌, ◌^◌, if◌then◌else◌, ltb, usize, Bool, true, false, Option, none,
  some, List, [], ◌∷◌,
}
use netperf.Core.Stats.{StreamStats, LatencyStats}
use netperf.Core.Dist.{from_samples}
use netperf.P2.Result.{Result, ok, err, panic, diverged, message}
use netperf.P2.Runtime.{WorkerMessage, start_load, terminate, StreamWorker}
use netperf.P2.StreamWorker.{
  Event, Loop, Setting, start_loop, worker_loop, millis, nanos_of_secs, warmup_of, calibrate_clock,
}

-- What the environment gives to one run, in the order of the calls: the random block, the first
-- message, the instant behind it, the clock reads of the calibration, the iterations of the loop,
-- the last clock read, and the reads of the drain.
pub record Inputs : Type 0 where
  pub random : Result (Unit {0})
  pub signal : Option WorkerMessage
  pub start_time : ℕ
  pub clock_first : ℕ
  pub clock_reads : List ℕ
  pub events : List Event
  pub end_time : ℕ
  pub drain : List (Result ℕ)

-- Pure results in sequence.
abbrev pub and_then {ℓ κ} : {A : Type ℓ} {B : Type κ} → Result A → (A → Result B) → Result B
and_then (ok a) f = f a
and_then (err e) f = err e
and_then panic f = panic
and_then diverged f = diverged

-- Only a sender fills its buffer.
fill : Bool → Result (Unit {0}) → Result (Unit {0})
fill true (ok _) = ok tt
fill true (err e) = err (message "failed to generate random data")
fill true panic = panic
fill true diverged = diverged
fill false _ = ok tt

await_start : Option WorkerMessage → Result (Unit {0})
await_start (some start_load) = ok tt
await_start _ =
    err (message "Internal communication channel for stream was terminated unexpectedly!")

-- An allocation of `n` items of `size` bytes; on a target of 32 bits 2^31 bytes and more are a panic.
allocate : (size n : ℕ) → Result (Unit {0})
allocate size n = if ltb (size * n) (2 ^ 31) then ok tt else panic

saturating_mul : ℕ → ℕ → ℕ
saturating_mul a b = if ltb (a * b) (2 ^ 32) then a * b else 2 ^ 32 - 1

-- `samples` and `tput` are made with room for the whole test, where latency is measured.
reserve : (measure : Bool) → (time_seconds : ℕ) → Result (Unit {0})
unfolding allocate saturating_mul
reserve false time_seconds = ok tt
reserve true time_seconds =
    and_then (allocate 8 (saturating_mul (usize time_seconds) 50_000))
      λ _. allocate 8 (saturating_mul (usize time_seconds) 120)

-- `start_time + timeout_duration`: the seconds of an instant are 64 bits.
deadline_at : (start_time time_seconds : ℕ) → Result (Unit {0})
deadline_at start_time time_seconds =
    if ltb (start_time + nanos_of_secs time_seconds) (nanos_of_secs (2 ^ 64)) then ok tt else panic

setting_of : {S : Type 0} → StreamWorker S → Inputs → Setting
setting_of worker inp = record {
  start_time = inp.start_time;
  measure = worker.params.measure_latency;
  warmup = warmup_of worker.params.time_seconds;
  clock_baseline_ns = elim worker.params.measure_latency [
    | true ↦ calibrate_clock inp.clock_first inp.clock_reads
    | false ↦ 0
  ];
}

latency_of : Setting → Loop → Option LatencyStats
latency_of cfg w = elim cfg.measure [
  | true ↦ some (record {
    interval_ns = from_samples w.samples;
    throughput_bps = from_samples w.tput;
    clock_baseline_ns = cfg.clock_baseline_ns;
    warmup_discarded = w.warmup_discarded;
  })
  | false ↦ none
]

stats_of : {S : Type 0} → StreamWorker S → Setting → Loop → ℕ → StreamStats
unfolding latency_of
stats_of worker cfg w duration = record {
  sender = worker.is_sending;
  duration_millis = duration;
  bytes_transferred = w.bytes_transferred;
  syscalls = w.syscalls;
  latency = latency_of cfg w;
}

-- `while read(..)? != 0 {}`, on the receiving end.
drain_reads : List (Result ℕ) → Result (Unit {0})
drain_reads [] = diverged
drain_reads (ok zero ∷ reads) = ok tt
drain_reads (ok (suc n) ∷ reads) = drain_reads reads
drain_reads (err e ∷ reads) = err e
drain_reads (panic ∷ reads) = panic
drain_reads (diverged ∷ reads) = diverged

unfoldable pub drain : Bool → List (Result ℕ) → Result (Unit {0})
unfolding drain_reads
drain true reads = ok tt
drain false reads = drain_reads reads

unfoldable pub run_worker :
    {S : Type 0} → (ℕ → ℕ → ℕ) → StreamWorker S → Inputs → Result StreamStats
unfolding fill await_start setting_of stats_of drain allocate reserve deadline_at
run_worker goodput worker inp =
    let cfg = setting_of worker inp in
    let params = worker.params in
    and_then (allocate 1 params.block_size) λ _. and_then (fill worker.is_sending inp.random) λ _.
      and_then (await_start inp.signal) λ _.
        and_then (reserve params.measure_latency params.time_seconds) λ _.
          and_then (deadline_at inp.start_time params.time_seconds) λ _.
            and_then (worker_loop goodput cfg inp.events (start_loop inp.start_time)) λ w.
              and_then (millis (inp.end_time - inp.start_time)) λ duration.
                and_then (drain worker.is_sending inp.drain)
                  λ _. ok (stats_of worker cfg w duration)
