-- ===== src/Core/LatencyUi/Lines.antt =====
-- Which lines the latency summary prints.
use mathlib.Core.List.{append-nil}
use netperf.Prelude.{
  ℕ, ◌<◌, ◌≡◌, refl, ap, sym, ◌∙◌, subst, Bool, true, false, ◌||◌, Bool-cases, ==_iff, inl, inr,
  Option, none, some, List, [], ◌∷◌, ◌++◌, ◌==◌, if◌then◌else◌, All, arith,
}
use netperf.Prelude.Dicts.{get}
use netperf.Core.Stats.{StreamStats, LatencyStats, TestResults}
use netperf.Core.LatencyUi.{
  LatencyLine, any_latency, insert_id, add_ids, lines_of_latency, latency_of_side, latency_loop,
  print_latency_summary,
}

-- The lines of one stream.
abbrev pub at : ℕ → List LatencyLine → List LatencyLine
at k [] = []
at k (l ∷ ls) = if l.id == k then l ∷ at k ls else at k ls

abbrev contains : ℕ → List ℕ → Bool
contains k [] = false
contains k (i ∷ ids) = i == k || contains k ids

abbrev has_key : ℕ → List (ℕ × StreamStats) → Bool
has_key k [] = false
has_key k ((i, s) ∷ streams) = i == k || has_key k streams

abbrev IsStrict : List ℕ → Type 0
IsStrict [] = Unit
IsStrict (i ∷ ids) = All (λ j. i < j) ids × IsStrict ids

contains-insert_id :
    (k j : ℕ) (ids : List ℕ) → contains k (insert_id j ids) ≡ (j == k || contains k ids)
unfolding insert_id
contains-insert_id k j [] = refl
contains-insert_id k j (i ∷ ids) = ground (arith, contains-insert_id k j ids)

insert_id-All :
    (n j : ℕ) (ids : List ℕ) → n < j → All (λ i. n < i) ids → All (λ i. n < i) (insert_id j ids)
unfolding insert_id
insert_id-All n j [] h a = (h, tt)
insert_id-All n j (i ∷ ids) h a = ground (arith, insert_id-All n j ids h a.1)

All-later : (m n : ℕ) (ids : List ℕ) → m < n → All (λ i. n < i) ids → All (λ i. m < i) ids
All-later m n [] h a = tt
All-later m n (i ∷ ids) h a = (omega arith, All-later m n ids h a.1)

insert_id-IsStrict : (j : ℕ) (ids : List ℕ) → IsStrict ids → IsStrict (insert_id j ids)
unfolding insert_id
insert_id-IsStrict j [] s = (tt, tt)
insert_id-IsStrict j (i ∷ ids) s =
    let later = λ (h : j < i). All-later j i ids h s.0 in
    let rest = insert_id-IsStrict j ids s.1 in
    let all = λ (h : i < j). insert_id-All i j ids h s.0 in ground (arith, later, all)

contains-add_ids :
    (k : ℕ) (streams : List (ℕ × StreamStats)) (ids : List ℕ)
    → contains k (add_ids streams ids) ≡ (has_key k streams || contains k ids)
unfolding add_ids
contains-add_ids k [] ids = refl
contains-add_ids k ((i, s) ∷ streams) ids =
    ground (arith, contains-add_ids k streams (insert_id i ids), contains-insert_id k i ids)

add_ids-IsStrict :
    (streams : List (ℕ × StreamStats)) (ids : List ℕ)
    → IsStrict ids
    → IsStrict (add_ids streams ids)
unfolding add_ids
add_ids-IsStrict [] ids s = s
add_ids-IsStrict ((i, st) ∷ streams) ids s =
    add_ids-IsStrict streams (insert_id i ids) (insert_id-IsStrict i ids s)

get-has_key :
    (k : ℕ) (streams : List (ℕ × StreamStats)) → has_key k streams ≡ false → get k streams ≡ none
get-has_key k [] h = refl
get-has_key k ((i, s) ∷ streams) h = ground (arith, get-has_key k streams)

contains-later : (k : ℕ) (ids : List ℕ) → All (λ i. k < i) ids → contains k ids ≡ false
contains-later k [] a = refl
contains-later k (i ∷ ids) a = ground (arith, contains-later k ids a.1)

at-append : (k : ℕ) (ls ms : List LatencyLine) → at k (ls ++ ms) ≡ at k ls ++ at k ms
at-append k [] ms = refl
at-append k (l ∷ ls) ms = ground (arith, at-append k ls ms)

at-lines :
    (k id : ℕ) (s : StreamStats) (o : Option LatencyStats)
    → at k (lines_of_latency id s o) ≡ (if id == k then lines_of_latency id s o else [])
unfolding lines_of_latency
at-lines k id s (some lat) = ground arith
at-lines k id s none = ground arith

at-side :
    (k id : ℕ) (o : Option StreamStats)
    → at k (latency_of_side id o) ≡ (if id == k then latency_of_side id o else [])
unfolding latency_of_side
at-side k id (some s) = at-lines k id s s.latency
at-side k id none = ground arith

module _ (local remote : TestResults) where
  -- What there is to print of one stream: the local side first.
  abbrev pub both_sides : ℕ → List LatencyLine
  both_sides k = latency_of_side k (get k local.streams) ++ latency_of_side k (get k remote.streams)

  sides :
      (k id : ℕ) (ids : List ℕ)
      → All (λ i. id < i) ids
      → (if id == k then latency_of_side id (get id local.streams) else [])
          ++ ((if id == k then latency_of_side id (get id remote.streams) else [])
              ++ (if contains k ids then both_sides k else []))
        ≡ (if id == k || contains k ids then both_sides k else [])
  sides k id ids s = elim (Bool-cases (id == k)) [
    | inl e ↦
        let same = (==_iff id k).0 e in
        let none_later = subst (λ j. contains j ids ≡ false) same (contains-later id ids s) in
        rw (e, none_later)
          (ap (λ l. latency_of_side id (get id local.streams) ++ l)
              (append-nil (latency_of_side id (get id remote.streams)))
            ∙ ap both_sides same)
    | inr e ↦ rw e refl
  ]

  at-loop :
      (k : ℕ) (ids : List ℕ)
      → IsStrict ids
      → at k (latency_loop local remote ids) ≡ (if contains k ids then both_sides k else [])
  unfolding latency_loop
  at-loop k [] s = refl
  at-loop k (id ∷ ids) s =
      at-append k (latency_of_side id (get id local.streams)) _
      ∙ ap (λ l. at k (latency_of_side id (get id local.streams)) ++ l)
          (at-append k (latency_of_side id (get id remote.streams)) (latency_loop local remote ids))
      ∙ rw
          (
            at-side k id (get id local.streams),
            at-side k id (get id remote.streams),
            at-loop k ids s.1,
          )
          (sides k id ids s.0)

  missing :
      (k : ℕ)
      → (has_key k remote.streams || contains k (add_ids local.streams [])) ≡ false
      → both_sides k ≡ []
  unfolding latency_of_side
  missing k h =
      let known = contains-add_ids k local.streams [] in
      let no_local = get-has_key k local.streams (ground arith) in
      let no_remote = get-has_key k remote.streams (ground arith) in rw (no_local, no_remote) refl

  -- If some stream of either side has latency statistics, then the latency summary is printed, and
  -- for every number it holds exactly what there is to print of the local stream of that number,
  -- followed by what there is of the remote one: each once, also where only one side has the
  -- stream.
  pub at-print_latency_summary :
      (k : ℕ)
      → (any_latency local.streams || any_latency remote.streams) ≡ true
      → (ls : List LatencyLine) × (print_latency_summary local remote ≡ some ls)
        × (at k ls ≡ both_sides k)
  unfolding print_latency_summary
  at-print_latency_summary k h =
      let ids = add_ids remote.streams (add_ids local.streams []) in
      let strict =
        add_ids-IsStrict remote.streams (add_ids local.streams [])
          (add_ids-IsStrict local.streams [] tt) in
      let known = contains-add_ids k remote.streams (add_ids local.streams []) in
      (
        latency_loop local remote ids,
        rw h refl,
        at-loop k ids strict ∙ elim (Bool-cases (contains k ids)) [
          | inl e ↦ rw e refl
          | inr e ↦ rw e (sym (missing k (sym known ∙ e)))
        ],
      )
