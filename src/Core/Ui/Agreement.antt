-- ===== src/Core/Ui/Agreement.antt =====
-- Both sides of a test in one direction print the same sums.
use netperf.Prelude.{
  ℕ, ◌+◌, ◌<◌, ◌≡◌, ◌↔◌, refl, ap, sym, ◌∙◌, Bool, true, false, Bool-cases, ==_iff, inl, inr,
  Option, none, some, List, [], ◌∷◌, ◌++◌, length, ◌==◌, if◌then◌else◌, u64, arith,
}
use netperf.Prelude.Dicts.{
  get, remove, Unique, get-remove_ne, get-remove_self, remove-Unique, no_entries,
}
use netperf.Core.Stats.{Direction, StreamStats, TestResults}
use netperf.Core.Ui.{Totals, is_one_way, lines_of_remote, lines_of_stream, sum_lines, print_summary}
use netperf.Core.Ui.Sums.{same_side, bytes_of, bytes_of-append, lines_of, print_summary-IsTotal}

-- What a stream has moved, if it is of the side.
abbrev share : Bool → StreamStats → ℕ
share side s = if same_side side s.sender then s.bytes_transferred else 0

abbrev share_of : Bool → Option StreamStats → ℕ
share_of side none = 0
share_of side (some s) = share side s

abbrev own : Bool → List (ℕ × StreamStats) → ℕ
own side [] = 0
own side ((k, s) ∷ m) = share side s + own side m

-- What the other side's streams of the same numbers have moved.
abbrev other : Bool → (remote streams : List (ℕ × StreamStats)) → ℕ
other side remote [] = 0
other side remote ((k, s) ∷ m) = share_of side (get k remote) + other side remote m

bytes_of-remote :
    (side : Bool) (k : ℕ) (o : Option StreamStats)
    → bytes_of side (lines_of_remote k o) ≡ share_of side o
bytes_of-remote side k none = refl
bytes_of-remote side k (some s) = omega arith

bytes_of-lines_of :
    (side : Bool) (remote : TestResults) (direction : Direction) (streams : List (ℕ × StreamStats))
    → is_one_way direction ≡ true
    → bytes_of side (lines_of remote direction streams)
      ≡ own side streams + other side remote.streams streams
bytes_of-lines_of side remote direction [] h = refl
bytes_of-lines_of side remote direction ((k, s) ∷ streams) h =
    let line =
      bytes_of-append side (lines_of_stream remote direction (k, s))
        (lines_of remote direction streams) in
    let rest = bytes_of-lines_of side remote direction streams h in
    let there = bytes_of-remote side k (get k remote.streams) in
    let one : bytes_of side (lines_of_stream remote direction (k, s))
        ≡ share side s + share_of side (get k remote.streams) =
      rw h (omega (arith, there)) in
    omega (arith, line, rest, one)

-- Taking out a stream takes out its share.
own-remove :
    (side : Bool) (k : ℕ) (m : List (ℕ × StreamStats))
    → own side m ≡ share_of side (get k m) + own side (remove k m)
own-remove side k [] = refl
own-remove side k ((j, s) ∷ m) = elim (Bool-cases (j == k)) [
  | inl e ↦ rw e refl
  | inr e ↦ rw e (omega (arith, own-remove side k m))
]

other-remove :
    (side : Bool) (k : ℕ) (remote m : List (ℕ × StreamStats))
    → get k m ≡ none
    → other side (remove k remote) m ≡ other side remote m
other-remove side k remote [] h = refl
other-remove side k remote ((j, s) ∷ m) h = elim (Bool-cases (j == k)) [
  | inl e ↦ let found = rw e at h in cc
  | inr e ↦
      let apart : (k == j) ≡ false = ground arith in
      let missing = rw e at h in
      let same = get-remove_ne k j remote apart in
      rw (same, other-remove side k remote m missing) refl
]

-- With the same numbers on both sides nothing of the other side is left out, or counted twice.
other-own :
    (side : Bool) (m remote : List (ℕ × StreamStats))
    → Unique m
    → Unique remote
    → ((k : ℕ) → (get k m ≡ none) ↔ (get k remote ≡ none))
    → other side remote m ≡ own side remote
other-own side [] remote u w h = let empty = no_entries remote (λ k. (h k).0 refl) in rw empty refl
other-own side ((k, s) ∷ m) remote u w h =
    let less : (j : ℕ) → (get j m ≡ none) ↔ (get j (remove k remote) ≡ none) = λ j.
      elim (Bool-cases (k == j)) [
        | inl e ↦
            let same = (==_iff k j).0 e in
            rw (← same) ((λ q. get-remove_self k remote w), (λ q. u.0))
        | inr e ↦
            let there : get j ((k, s) ∷ m) ≡ get j m = rw e refl in
            let kept = get-remove_ne k j remote e in
            ((λ q. kept ∙ (h j).0 (there ∙ q)), (λ q. sym there ∙ (h j).1 (sym kept ∙ q)))
      ] in
    let rest = other-own side m (remove k remote) u.1 (remove-Unique k remote w) less in
    let taken = own-remove side k remote in
    let without = other-remove side k remote m u.0 in omega (arith, rest, taken, without)

-- What both sides make of their own results and the other's.
pub record SameSums (r s : TestResults) (direction : Direction) : Type 0 where
  pub here : Totals
  pub there : Totals
  pub printed_here : print_summary r s direction ≡ lines_of s direction r.streams ++ sum_lines here
  pub printed_there :
      print_summary s r direction ≡ lines_of r direction s.streams ++ sum_lines there
  pub sent : here.sender_bytes_transferred ≡ there.sender_bytes_transferred
  pub received : here.receiver_bytes_transferred ≡ there.receiver_bytes_transferred

same_bytes :
    (side : Bool) (r s : TestResults) (direction : Direction)
    → is_one_way direction ≡ true
    → Unique r.streams
    → Unique s.streams
    → ((k : ℕ) → (get k r.streams ≡ none) ↔ (get k s.streams ≡ none))
    → bytes_of side (lines_of s direction r.streams)
      ≡ bytes_of side (lines_of r direction s.streams)
same_bytes side r s direction d u w h =
    let from_r = bytes_of-lines_of side s direction r.streams d in
    let from_s = bytes_of-lines_of side r direction s.streams d in
    let all_s = other-own side r.streams s.streams u w h in
    let all_r = other-own side s.streams r.streams w u (λ k. ((h k).1, (h k).0)) in
    omega (arith, from_r, from_s, all_s, all_r)

-- After a test in one direction with more than one stream, if both sides have results for the same
-- stream numbers, each number once, then the summary that either side makes of its own results and
-- the other's ends with the same number of bytes sent and the same number of bytes received, in
-- whatever order each side goes through its streams.
pub print_summary-SameSums :
    (r s : TestResults) (direction : Direction)
    → is_one_way direction ≡ true
    → Unique r.streams
    → Unique s.streams
    → ((k : ℕ) → (get k r.streams ≡ none) ↔ (get k s.streams ≡ none))
    → 1 < length r.streams
    → 1 < length s.streams
    → SameSums r s direction
print_summary-SameSums r s direction d u w h lr ls =
    let (here, by_r, a) = print_summary-IsTotal r s direction lr in
    let (there, by_s, b) = print_summary-IsTotal s r direction ls in
    let sent = same_bytes true r s direction d u w h in
    let received = same_bytes false r s direction d u w h in
    record {
      here = here;
      there = there;
      printed_here = by_r;
      printed_there = by_s;
      sent = a.sent ∙ ap u64 sent ∙ sym b.sent;
      received = a.received ∙ ap u64 received ∙ sym b.received;
    }
