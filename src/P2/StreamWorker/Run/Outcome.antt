-- ===== src/P2/StreamWorker/Run/Outcome.antt =====
-- What `run_worker` reports of a run that is not interrupted by an error, and when it fails early.
use netperf.Prelude.{
  ℕ, ◌+◌, ◌-◌, ◌/◌, ◌^◌, ◌<◌, ◌≤◌, ltb, ◌≡◌, ◌≢◌, refl, Bool, true, false, Option, none, some, List,
  ◌∷◌, ◌++◌, u64, All, arith,
}
use netperf.Core.Stats.{StreamStats, LatencyStats}
use netperf.Core.Dist.Bounds.{from_samples-count}
use netperf.P2.Result.{Result, ok, err, message}
use netperf.P2.Runtime.{start_load, StreamWorker}
use netperf.P2.StreamWorker.{Event, Loop, Setting, start_loop, nanos_of_secs}
use netperf.P2.StreamWorker.Run.{
  Inputs, drain, run_worker, setting_of, latency_of, stats_of, reserve, allocate, deadline_at,
  saturating_mul,
}
use netperf.P2.StreamWorker.Totals.{
  IsProgress, IsStop, moved, calls, Tally, Tally-eq, worker_loop-Tally,
}

-- With latency measured, every call gave a sample or was discarded in the warm-up.
abbrev pub Accounts : Bool → Option LatencyStats → ℕ → Type 0
Accounts measure none calls = measure ≡ false
Accounts measure (some l) calls =
    (measure ≡ true) × (u64 (l.interval_ns.count + l.warmup_discarded) ≡ calls)

-- The report of a worker whose loop met `before` and then stopped.
pub record Reports (sending measure : Bool) (duration : ℕ) (before : List Event)
    (r : Result StreamStats) : Type 0 where
  pub stats : StreamStats
  pub result : r ≡ ok stats
  pub sender : stats.sender ≡ sending
  pub time : stats.duration_millis ≡ duration
  pub bytes : stats.bytes_transferred ≡ u64 (moved before)
  pub syscalls : stats.syscalls ≡ u64 (calls before)
  pub latency : Accounts measure stats.latency stats.syscalls

latency_of-Accounts :
    (cfg : Setting) (b n : ℕ) (w : Loop)
    → Tally cfg b n w
    → Accounts cfg.measure (latency_of cfg w) w.syscalls
unfolding latency_of
latency_of-Accounts cfg b n w h = ground (arith, from_samples-count w.samples)

reserve-few :
    (measure : Bool) (time_seconds : ℕ)
    → (measure ≡ true → time_seconds ≤ 5_368)
    → reserve measure time_seconds ≡ ok tt
unfolding reserve allocate saturating_mul
reserve-few false time_seconds h = refl
reserve-few true time_seconds h = let few = h refl in ground arith

deadline_at-early :
    (start_time time_seconds : ℕ)
    → start_time < 2 ^ 64
    → time_seconds < 2 ^ 63
    → deadline_at start_time time_seconds ≡ ok tt
unfolding deadline_at
deadline_at-early start_time time_seconds s t =
    let early : ltb (start_time + nanos_of_secs time_seconds) (nanos_of_secs (2 ^ 64)) ≡ true =
      ground arith in
    rw early refl

allocate-few : (n : ℕ) → n < 2 ^ 31 → allocate 1 n ≡ ok tt
unfolding allocate
allocate-few n h = ground arith

module _ (goodput : ℕ → ℕ → ℕ) {S : Type 0} (worker : StreamWorker S) (inp : Inputs) where
  -- A worker that gets its random block and StartLoad, whose loop goes through the iterations
  -- `before` without an error or an end and then stops, whose clock fits 64 bits and whose drain
  -- ends, with a block below 2^31 bytes and a time below 2^63 seconds, and of 5,368 seconds at
  -- most where latency is measured, returns ok: it reports its own role, the elapsed milliseconds,
  -- the bytes moved and the calls made in `before` (both modulo 2^64), and, if it measures
  -- latency, as many samples and discarded samples together as there were calls.
  pub run_worker-Reports :
      (before : List Event) (stop : Event) (rest : List Event)
      → inp.random ≡ ok tt
      → inp.signal ≡ some start_load
      → inp.events ≡ before ++ stop ∷ rest
      → All IsProgress before
      → IsStop stop
      → inp.start_time < 2 ^ 64
      → (inp.end_time - inp.start_time) / 1_000_000 < 2 ^ 64
      → drain worker.is_sending inp.drain ≡ ok tt
      → worker.params.block_size < 2 ^ 31
      → worker.params.time_seconds < 2 ^ 63
      → (worker.params.measure_latency ≡ true → worker.params.time_seconds ≤ 5_368)
      → Reports worker.is_sending worker.params.measure_latency
          ((inp.end_time - inp.start_time) / 1_000_000)
          before
          (run_worker goodput worker inp)
  unfolding run_worker
  run_worker-Reports before stop rest f g e p s t d k b o c =
      let buffer = allocate-few worker.params.block_size b in
      let room = reserve-few worker.params.measure_latency worker.params.time_seconds c in
      let ends = deadline_at-early inp.start_time worker.params.time_seconds t o in
      let cfg = setting_of worker inp in
      let start : Tally cfg 0 0 (start_loop inp.start_time) = ground arith in
      let (w, looped, counted) =
        worker_loop-Tally goodput cfg 0 0 before stop rest (start_loop inp.start_time) start p s in
      let tally : Tally cfg (moved before) (calls before) w =
        Tally-eq cfg (omega arith) (omega arith) counted in
      record {
        stats = stats_of worker cfg w ((inp.end_time - inp.start_time) / 1_000_000);
        result = rw (buffer, room, ends) (ground (arith, looped));
        sender = refl;
        time = refl;
        bytes = tally.total;
        syscalls = tally.total_calls;
        latency = latency_of-Accounts cfg _ _ w tally;
      }

  -- A worker that has its random block and whose first message is anything but StartLoad fails
  -- with the error of a terminated channel, whatever the rest of its inputs.
  pub run_worker-not_started :
      inp.signal ≢ some start_load
      → inp.random ≡ ok tt
      → worker.params.block_size < 2 ^ 31
      → run_worker goodput worker inp
        ≡ err (message "Internal communication channel for stream was terminated unexpectedly!")
  unfolding run_worker
  run_worker-not_started n f b =
      let buffer = allocate-few worker.params.block_size b in rw buffer (ground arith)
