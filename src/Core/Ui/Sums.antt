-- ===== src/Core/Ui/Sums.antt =====
-- The sums of a summary.
use Prim.Native.Nat.{max}
use mathlib.Core.List.{append_assoc, append-nil}
use netperf.Prelude.{
  ℕ, ◌+◌, ◌<◌, ◌≡◌, refl, ap, subst, Bool, true, false, List, [], ◌∷◌, ◌++◌, length, ltb,
  if◌then◌else◌, u64, arith,
}
use netperf.Core.Stats.{Direction, StreamStats, TestResults}
use netperf.Core.Ui.{
  Line, Totals, no_totals, add_line, add_lines, lines_of_stream, summary_loop, sum_lines,
  print_summary,
}

abbrev pub same_side : Bool → Bool → Bool
same_side true b = b
same_side false true = false
same_side false false = true

-- The bytes and the longest time of the lines of one side.
abbrev pub bytes_of : Bool → List Line → ℕ
bytes_of side [] = 0
bytes_of side (l ∷ ls) =
    (if same_side side l.sender then l.bytes_transferred else 0) + bytes_of side ls

abbrev pub longest : Bool → List Line → ℕ
longest side [] = 0
longest side (l ∷ ls) =
    max (if same_side side l.sender then l.duration_millis else 0) (longest side ls)

-- The totals are those of the lines.
pub record IsTotal (ls : List Line) (t : Totals) : Type 0 where
  pub sent : t.sender_bytes_transferred ≡ u64 (bytes_of true ls)
  pub received : t.receiver_bytes_transferred ≡ u64 (bytes_of false ls)
  pub sending : t.sender_duration_millis ≡ longest true ls
  pub receiving : t.receiver_duration_millis ≡ longest false ls

pub bytes_of-append :
    (side : Bool) (ls ms : List Line)
    → bytes_of side (ls ++ ms) ≡ bytes_of side ls + bytes_of side ms
bytes_of-append side [] ms = omega arith
bytes_of-append side (l ∷ ls) ms = omega (arith, bytes_of-append side ls ms)

longest-append :
    (side : Bool) (ls ms : List Line)
    → longest side (ls ++ ms) ≡ max (longest side ls) (longest side ms)
longest-append side [] ms = omega arith
longest-append side (l ∷ ls) ms = omega (arith, longest-append side ls ms)

add_line-IsTotal :
    (ls : List Line) (l : Line) (t : Totals) → IsTotal ls t → IsTotal (ls ++ l ∷ []) (add_line l t)
unfolding add_line
add_line-IsTotal ls l t h = ground (
  arith,
  bytes_of-append true ls (l ∷ []),
  bytes_of-append false ls (l ∷ []),
  longest-append true ls (l ∷ []),
  longest-append false ls (l ∷ []),
)

add_lines-IsTotal :
    (ls ms : List Line) (t : Totals) → IsTotal ls t → IsTotal (ls ++ ms) (add_lines ms t)
unfolding add_lines
add_lines-IsTotal ls [] t h = rw append-nil h
add_lines-IsTotal ls (m ∷ ms) t h =
    subst (λ l. IsTotal l (add_lines ms (add_line m t))) (append_assoc ls (m ∷ []) ms)
      (add_lines-IsTotal (ls ++ m ∷ []) ms (add_line m t) (add_line-IsTotal ls m t h))

-- The lines of all local streams.
abbrev pub lines_of : TestResults → Direction → List (ℕ × StreamStats) → List Line
lines_of remote direction [] = []
lines_of remote direction (entry ∷ streams) =
    lines_of_stream remote direction entry ++ lines_of remote direction streams

summary_loop-lines :
    (remote : TestResults) (direction : Direction) (streams : List (ℕ × StreamStats)) (t : Totals)
    → (summary_loop remote direction streams t).0 ≡ lines_of remote direction streams
unfolding summary_loop
summary_loop-lines remote direction [] t = refl
summary_loop-lines remote direction (entry ∷ streams) t =
    let lines = lines_of_stream remote direction entry in
    ap (λ l. lines ++ l) (summary_loop-lines remote direction streams (add_lines lines t))

summary_loop-IsTotal :
    (remote : TestResults) (direction : Direction) (streams : List (ℕ × StreamStats))
    (ls : List Line) (t : Totals)
    → IsTotal ls t
    → IsTotal (ls ++ lines_of remote direction streams) (summary_loop remote direction streams t).1
unfolding summary_loop
summary_loop-IsTotal remote direction [] ls t h = rw append-nil h
summary_loop-IsTotal remote direction (entry ∷ streams) ls t h =
    let lines = lines_of_stream remote direction entry in
    subst (λ l. IsTotal l (summary_loop remote direction streams (add_lines lines t)).1)
      (append_assoc ls lines (lines_of remote direction streams))
      (summary_loop-IsTotal remote direction streams (ls ++ lines) (add_lines lines t)
        (add_lines-IsTotal ls lines t h))

-- With more than one local stream, the summary prints the lines of each local stream, each
-- followed by the remote one of its number in a test in one direction, and then a line for each
-- side, whose bytes are the sum modulo 2^64 of the bytes of that side's lines and whose time is
-- the longest of theirs.
pub print_summary-IsTotal :
    (local remote : TestResults) (direction : Direction)
    → 1 < length local.streams
    → (t : Totals) × (print_summary local remote direction
        ≡ lines_of remote direction local.streams ++ sum_lines t)
      × IsTotal (lines_of remote direction local.streams) t
unfolding print_summary
print_summary-IsTotal local remote direction h =
    let t = (summary_loop remote direction local.streams no_totals).1 in
    let several : ltb 1 (length local.streams) ≡ true = ground arith in
    let start : IsTotal [] no_totals = ground arith in
    (
      t,
      rw (several, summary_loop-lines remote direction local.streams no_totals) refl,
      summary_loop-IsTotal remote direction local.streams [] no_totals start,
    )
