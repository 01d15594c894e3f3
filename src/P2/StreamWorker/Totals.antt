-- ===== src/P2/StreamWorker/Totals.antt =====
-- What the loop counts: totals, interval reports and samples agree with the reads and writes.
use netperf.Prelude.{
  ℕ, zero, suc, ◌+◌, ◌-◌, ◌/◌, ◌^◌, ◌<◌, ◌≡◌, refl, none, some, List, [], ◌∷◌, ◌++◌, length,
  length-append, if◌then◌else◌, u64, All, arith,
}
use mathlib.Core.Path.{subst₂}
use netperf.P2.Result.{ok}
use netperf.P2.Runtime.{start_load, terminate}
use netperf.P2.StreamWorker.{
  Event, deadline, msg, tick, io, Interval, Loop, Setting, on_tick, on_io, worker_loop,
}

-- The bytes and the calls that a list of intervals reports.
abbrev pub sum_bytes : List Interval → ℕ
sum_bytes [] = 0
sum_bytes (i ∷ is) = i.bytes + sum_bytes is

abbrev pub sum_syscalls : List Interval → ℕ
sum_syscalls [] = 0
sum_syscalls (i ∷ is) = i.syscalls + sum_syscalls is

-- An iteration after which the loop goes on.
abbrev pub IsProgress : Event → Type 0
IsProgress (msg (some start_load)) = Unit
IsProgress (tick at) = at < 2 ^ 64
IsProgress (io (ok count) now) = 0 < count
IsProgress _ = ⊥

-- One that ends it.
abbrev pub IsStop : Event → Type 0
IsStop deadline = Unit
IsStop (msg none) = Unit
IsStop (msg (some terminate)) = Unit
IsStop (io (ok count) now) = count ≡ 0
IsStop _ = ⊥

-- The bytes that the reads or writes moved, and how many of them there were.
abbrev pub moved : List Event → ℕ
moved [] = 0
moved (io (ok count) now ∷ events) = count + moved events
moved (_ ∷ events) = moved events

abbrev pub calls : List Event → ℕ
calls [] = 0
calls (io (ok count) now ∷ events) = suc (calls events)
calls (_ ∷ events) = calls events

-- The variables tally with `bytes` moved in `n` calls, all modulo 2 ^ 64 as in the source.
pub record Tally (cfg : Setting) (bytes n : ℕ) (w : Loop) : Type 0 where
  pub total : w.bytes_transferred ≡ u64 bytes
  pub total_calls : w.syscalls ≡ u64 n
  pub reported : u64 (sum_bytes w.printed + w.current_bytes) ≡ u64 bytes
  pub reported_calls : u64 (sum_syscalls w.printed + w.current_syscalls) ≡ u64 n
  pub sampled : u64 (length w.samples + w.warmup_discarded) ≡ (if cfg.measure then u64 n else 0)
  pub in_time : w.last_tick < 2 ^ 64

pub Tally-eq :
    (cfg : Setting) {b b' n n' : ℕ} {w : Loop}
    → b ≡ b'
    → n ≡ n'
    → Tally cfg b n w
    → Tally cfg b' n' w
Tally-eq cfg {w} p q h = subst₂ (λ x y. Tally cfg x y w) p q h

sum_bytes-append :
    (is : List Interval) (i : Interval) → sum_bytes (is ++ i ∷ []) ≡ sum_bytes is + i.bytes
sum_bytes-append [] i = omega arith
sum_bytes-append (j ∷ is) i = omega (arith, sum_bytes-append is i)

sum_syscalls-append :
    (is : List Interval) (i : Interval) → sum_syscalls (is ++ i ∷ []) ≡ sum_syscalls is + i.syscalls
sum_syscalls-append [] i = omega arith
sum_syscalls-append (j ∷ is) i = omega (arith, sum_syscalls-append is i)

on_tick-Tally :
    (cfg : Setting) (b n at : ℕ) (w : Loop)
    → Tally cfg b n w
    → at < 2 ^ 64
    → (w' : Loop) × (on_tick cfg at w ≡ ok w') × Tally cfg b n w'
unfolding on_tick
on_tick-Tally cfg b n at w h l =
    let line : Interval = record {
      offset_millis = (w.last_tick - cfg.start_time) / 1_000_000;
      duration_millis = (at - w.last_tick) / 1_000_000;
      bytes = w.current_bytes;
      syscalls = w.current_syscalls;
    } in
    (
      record w {
        printed = w.printed ++ line ∷ [];
        current_bytes = 0;
        current_syscalls = 0;
        last_tick = at;
      },
      ground arith,
      record {
        total = h.total;
        total_calls = h.total_calls;
        reported = omega (arith, h.reported, sum_bytes-append w.printed line);
        reported_calls = omega (arith, h.reported_calls, sum_syscalls-append w.printed line);
        sampled = h.sampled;
        in_time = l;
      },
    )

module _ (goodput : ℕ → ℕ → ℕ) (cfg : Setting) where
  on_io-Tally :
      (b n count now : ℕ) (w : Loop)
      → 0 < count
      → Tally cfg b n w
      → Tally cfg (b + count) (suc n) (on_io goodput cfg count now w)
  unfolding on_io
  on_io-Tally b n count now w l h =
      ground (arith, length-append w.samples ((u64 (now - w.t_prev) - cfg.clock_baseline_ns) ∷ []))

  on_io_end : (b n now : ℕ) (w : Loop) → Tally cfg b n w → Tally cfg b n (on_io goodput cfg 0 now w)
  unfolding on_io
  on_io_end b n now w h = ground arith

  -- The loop up to the first iteration that ends it: it returns, and its variables tally.
  pub worker_loop-Tally :
      (b n : ℕ) (before : List Event) (stop : Event) (rest : List Event) (w : Loop)
      → Tally cfg b n w
      → All IsProgress before
      → IsStop stop
      → (w' : Loop) × (worker_loop goodput cfg (before ++ stop ∷ rest) w ≡ ok w')
        × Tally cfg (b + moved before) (n + calls before) w'
  unfolding worker_loop
  worker_loop-Tally b n [] deadline rest w h p s =
      (w, refl, Tally-eq cfg (omega arith) (omega arith) h)
  worker_loop-Tally b n [] (msg none) rest w h p s =
      (w, refl, Tally-eq cfg (omega arith) (omega arith) h)
  worker_loop-Tally b n [] (msg (some terminate)) rest w h p s =
      (w, refl, Tally-eq cfg (omega arith) (omega arith) h)
  worker_loop-Tally b n [] (io (ok zero) now) rest w h p s = (
    on_io goodput cfg 0 now w,
    refl,
    Tally-eq cfg (omega arith) (omega arith) (on_io_end b n now w h),
  )
  worker_loop-Tally b n [] (io (ok (suc count)) now) rest w h p s = absurd (omega arith)
  worker_loop-Tally b n [] _ rest w h p s = absurd s
  worker_loop-Tally b n (msg (some start_load) ∷ before) stop rest w h p s =
      worker_loop-Tally b n before stop rest w h p.1 s
  worker_loop-Tally b n (tick at ∷ before) stop rest w h p s =
      let (w₁, ticked, h₁) = on_tick-Tally cfg b n at w h p.0 in
      let (w₂, others, h₂) = worker_loop-Tally b n before stop rest w₁ h₁ p.1 s in
      (w₂, rw (ticked, worker_loop) others, h₂)
  worker_loop-Tally b n (io (ok (suc count)) now ∷ before) stop rest w h p s =
      let h₁ = on_io-Tally b n (suc count) now w (omega arith) h in
      let (w₂, others, h₂) =
        worker_loop-Tally (b + suc count) (suc n) before stop rest
          (on_io goodput cfg (suc count) now w) h₁ p.1 s in
      (w₂, ground arith, Tally-eq cfg (omega arith) (omega arith) h₂)
  worker_loop-Tally b n (io (ok zero) now ∷ before) stop rest w h p s = absurd (omega arith)
  worker_loop-Tally b n (_ ∷ before) stop rest w h p s = absurd p.0
