-- ===== src/P3/Transfer/Counts.antt =====
-- What the data loops count, against the bytes that are moved.
use netperf.Prelude.{
  ℕ, suc, ◌+◌, ◌-◌, ◌*◌, ◌^◌, ◌≤◌, ◌<◌, ◌≡◌, ◌⊎◌, refl, ap, ◌∙◌, Bool, true, inl, inr, Bool-cases,
  some, List, [], ◌∷◌, ◌++◌, map, length, length-append, concat, All, ltb, ◌==◌, if◌then◌else◌, u64,
  arith,
}
use netperf.P3.Frames.{Chunk, complete, ended}
use netperf.P3.Transfer.{Turn, Writer, write_turn, write_loop, read_loop}

-- The bytes that the writes of a list of rounds have moved, for the first of them from `buf`.
abbrev pub accepted : (block buf : ℕ) → List Turn → ℕ
accepted block buf [] = 0
accepted block buf (t ∷ turns) =
    (buf - t.left) + accepted block (if t.left == 0 then block else t.left) turns

-- A round in time whose write moves the whole block.
abbrev pub IsWhole : ℕ → Turn → Type 0
IsWhole dur t = (t.elapsed < dur) × (t.left ≡ 0)

-- A round that ends the loop: the time is up, or the peer has closed and nothing is moved.
abbrev pub IsEnd : (block dur : ℕ) → Turn → Type 0
IsEnd block dur t = (dur ≤ t.elapsed) ⊎ (t.left ≡ block)

-- A round in time whose write moves all but `left` bytes of the block, or none of those.
abbrev pub LeavesBehind : (dur left : ℕ) → Turn → Type 0
LeavesBehind dur left t = (t.elapsed < dur) × (t.left ≡ left)

accepted-whole :
    (block : ℕ) (t : Turn) (turns : List Turn)
    → t.left ≡ 0
    → accepted block block (t ∷ turns) ≡ (block - t.left) + accepted block block turns
accepted-whole block t turns h = ground arith

suc_mul : (n d : ℕ) → suc n * d ≡ d + n * d
suc_mul n d = omega arith

-- After the first of such rounds nothing more is moved.
accepted-nothing :
    (block dur left : ℕ) (turns : List Turn)
    → 0 < left
    → All (LeavesBehind dur left) turns
    → accepted block left turns ≡ 0
accepted-nothing block dur left [] h a = refl
accepted-nothing block dur left (t ∷ turns) h a =
    ground (arith, accepted-nothing block dur left turns h a.1)

pub accepted-behind :
    (block dur left : ℕ) (t : Turn) (turns : List Turn)
    → 0 < left
    → All (LeavesBehind dur left) (t ∷ turns)
    → accepted block block (t ∷ turns) ≡ block - left
accepted-behind block dur left t turns h a =
    ground (arith, accepted-nothing block dur left turns h a.1)

module _ (block dur : ℕ) (measure : Bool) where
  write_turn_moved :
      (t : Turn) (w : Writer) → (write_turn block measure t w).moved ≡ w.moved + (w.buf - t.left)
  unfolding write_turn
  write_turn_moved t w = refl

  write_turn_buf : (t : Turn) (w : Writer) → t.left ≡ 0 → (write_turn block measure t w).buf ≡ block
  unfolding write_turn
  write_turn_buf t w h = ground arith

  ended_moved :
      (stop : Turn) (w : Writer)
      → IsEnd block dur stop
      → ltb stop.elapsed dur ≡ true
      → w.buf ≤ block
      → (write_turn block measure stop w).moved ≡ w.moved
  ended_moved stop w (inl late) h b = absurd (ground arith)
  ended_moved stop w (inr none_taken) h b = omega (arith, write_turn_moved stop w)

  write_loop-end :
      (stop : Turn) (rest : List Turn) (w : Writer)
      → 0 < block
      → IsEnd block dur stop
      → w.total < 2 ^ 64
      → (w' : Writer) × (write_loop block dur measure (stop ∷ rest) w ≡ some w')
        × (w'.total ≡ w.total)
        × (w.buf ≤ block → w'.moved ≡ w.moved)
  unfolding write_loop
  write_loop-end stop rest w b e h = elim (Bool-cases (ltb stop.elapsed dur)) [
    | inl early ↦ (
      write_turn block measure stop w,
      ground arith,
      ground arith,
      λ m. ended_moved stop w e early m,
    )
    | inr late ↦ (w, ground arith, refl, λ _. refl)
  ]

  write_turn_range : (t : Turn) (w : Writer) → (write_turn block measure t w).total < 2 ^ 64
  unfolding write_turn
  write_turn_range t w = omega arith

  write_turn_total :
      (t : Turn) (w : Writer)
      → (write_turn block measure t w).total ≡ u64 (w.total + (block - t.left))
  unfolding write_turn
  write_turn_total t w = refl

  -- A round that moves something and is in time.
  write_loop-more :
      (t : Turn) (turns : List Turn) (w : Writer)
      → t.elapsed < dur
      → t.left < block
      → write_loop block dur measure (t ∷ turns) w
        ≡ write_loop block dur measure turns (write_turn block measure t w)
  unfolding write_loop
  write_loop-more t turns w e l = ground arith

  pub write_loop-whole :
      (before : List Turn) (stop : Turn) (rest : List Turn) (w : Writer)
      → 0 < block
      → w.total < 2 ^ 64
      → w.buf ≡ block
      → All (IsWhole dur) before
      → IsEnd block dur stop
      → (w' : Writer) × (write_loop block dur measure (before ++ stop ∷ rest) w ≡ some w')
        × (w'.total ≡ u64 (w.total + accepted block block before))
        × (w'.moved ≡ w.moved + accepted block block before)
  write_loop-whole [] stop rest w b h f a e =
      let (w', done, same, moved) = write_loop-end stop rest w b e h in
      (w', done, omega arith, moved (omega arith) ∙ omega arith)
  write_loop-whole (t ∷ before) stop rest w b h f a e =
      let (w', done, same, moved) =
        write_loop-whole before stop rest (write_turn block measure t w) b (write_turn_range t w)
          (write_turn_buf t w a.0.1) a.1 e in
      (
        w',
        write_loop-more t (before ++ stop ∷ rest) w a.0.0 (omega arith) ∙ done,
        omega (arith, same, write_turn_total t w, accepted-whole block t before a.0.1),
        omega (arith, moved, write_turn_moved t w, accepted-whole block t before a.0.1, a.0.1),
      )

  pub write_loop-behind :
      (left : ℕ) (turns : List Turn) (stop : Turn) (rest : List Turn) (w : Writer)
      → left < block
      → w.total < 2 ^ 64
      → All (LeavesBehind dur left) turns
      → dur ≤ stop.elapsed
      → (w' : Writer) × (write_loop block dur measure (turns ++ stop ∷ rest) w ≡ some w')
        × (w'.total ≡ u64 (w.total + length turns * (block - left)))
  write_loop-behind left [] stop rest w b h a e =
      let (w', done, same, _) = write_loop-end stop rest w (omega arith) (inl e) h in
      (w', done, omega arith)
  write_loop-behind left (t ∷ turns) stop rest w b h a e =
      let (w', done, same) =
        write_loop-behind left turns stop rest (write_turn block measure t w) b
          (write_turn_range t w) a.1 e in
      (
        w',
        write_loop-more t (turns ++ stop ∷ rest) w a.0.0 (omega arith) ∙ done,
        omega (arith, same, write_turn_total t w, suc_mul (length turns) (block - left)),
      )

pub read_loop_lem :
    (bs : List (List ℕ)) (rest : List Chunk) (total : ℕ)
    → total < 2 ^ 64
    → read_loop (map complete bs ++ ended ∷ rest) total ≡ some (u64 (total + length (concat bs)))
unfolding read_loop
read_loop_lem [] rest total h = ground arith
read_loop_lem (b ∷ bs) rest total h =
    let rest_read = read_loop_lem bs rest (u64 (total + length b)) (omega arith) in
    rest_read ∙ ap some (omega (arith, length-append b (concat bs)))
