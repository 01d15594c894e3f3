-- ===== src/P3/Transfer/Ends.antt =====
-- The two ends of a data connection: what each reports, and who is served.
use netperf.Prelude.{
  ℕ, ◌+◌, ◌-◌, ◌*◌, ◌^◌, ◌≤◌, ◌<◌, ◌≡◌, ◌≢◌, refl, ap, sym, ◌∙◌, Bool, true, false, inl, inr,
  Bool-cases, Option, some, List, [], ◌∷◌, ◌++◌, map, length, length-append, concat, replicate,
  take, take_prefix, All, ltb, u64, arith,
}
use netperf.Core.Stats.{StreamStats}
use netperf.P3.Frames.{Chunk, complete, ended}
use netperf.P3.Transfer.{
  Turn, Sends, nanos_of_secs, write_data, data_of, start_writer, read_data, server_conn, serve_data,
  cookie_len, cookie_loop, sent_stats, received_stats,
}
use netperf.P3.Transfer.Counts.{
  accepted, IsWhole, IsEnd, LeavesBehind, write_loop-whole, write_loop-behind, accepted-behind,
  read_loop_lem,
}
use netperf.P3.Transfer.Cookie.{
  cookie_loop-Found, cookie_loop-short, same_bytes_refl, same_bytes_ne, take_append,
}

-- A transfer is reported as one that moved `n` bytes.
pub record Reports (sender : Bool) (n : ℕ) (r : Option StreamStats) : Type 0 where
  pub stats : StreamStats
  pub result : r ≡ some stats
  pub role : stats.sender ≡ sender
  pub bytes : stats.bytes_transferred ≡ u64 n

pub write_data-whole :
    (block secs finish : ℕ) (measure : Bool) (before : List Turn) (stop : Turn) (rest : List Turn)
    → 0 < block
    → All (IsWhole (nanos_of_secs secs)) before
    → IsEnd block (nanos_of_secs secs) stop
    → Reports true
        (accepted block block before)
        (write_data block secs measure (record { turns = before ++ stop ∷ rest; finish = finish }))
unfolding write_data
write_data-whole block secs finish measure before stop rest b a e =
    let (w, done, total, _) =
      write_loop-whole block (nanos_of_secs secs) measure before stop rest (start_writer block) b
        (omega arith) refl a e in
    record {
      stats = sent_stats measure finish w;
      result = rw done refl;
      role = refl;
      bytes = omega (arith, total);
    }

-- The bytes on its stream are as many zeros.
pub data_of-whole :
    (block secs finish : ℕ) (measure : Bool) (before : List Turn) (stop : Turn) (rest : List Turn)
    → 0 < block
    → All (IsWhole (nanos_of_secs secs)) before
    → IsEnd block (nanos_of_secs secs) stop
    → data_of block secs measure (record { turns = before ++ stop ∷ rest; finish = finish })
      ≡ some (replicate (accepted block block before) 0)
unfolding data_of
data_of-whole block secs finish measure before stop rest b a e =
    let (w, done, _, moved) =
      write_loop-whole block (nanos_of_secs secs) measure before stop rest (start_writer block) b
        (omega arith) refl a e in
    rw done (ap (λ n. some (replicate n 0)) (omega (arith, moved)))

-- In the p3 build, if each write before the time is up gives back the same number of bytes, at
-- least one and fewer than a block, then only the first of them moves bytes, and yet the sender
-- reports the rest of a block for every one of them.
pub write_data-overcounts :
    (block secs finish left : ℕ) (measure : Bool) (t : Turn) (turns : List Turn) (stop : Turn)
    (rest : List Turn)
    → 0 < left
    → left < block
    → All (LeavesBehind (nanos_of_secs secs) left) (t ∷ turns)
    → nanos_of_secs secs ≤ stop.elapsed
    → (accepted block block (t ∷ turns) ≡ block - left)
      × Reports true (length (t ∷ turns) * (block - left)) (
          write_data block secs measure
            (record { turns = (t ∷ turns) ++ stop ∷ rest; finish = finish }))
unfolding write_data
write_data-overcounts block secs finish left measure t turns stop rest p l a e =
    let (w, done, total) =
      write_loop-behind block (nanos_of_secs secs) measure left (t ∷ turns) stop rest
        (start_writer block) l (omega arith) a e in
    (
      accepted-behind block (nanos_of_secs secs) left t turns p a,
      record {
        stats = sent_stats measure finish w;
        result = rw done refl;
        role = refl;
        bytes = omega (arith, total);
      },
    )

read_data_lem :
    (init finish : ℕ) (bs : List (List ℕ)) (rest : List Chunk)
    → init < 2 ^ 64
    → Reports false
        (init + length (concat bs))
        (read_data init (record { chunks = map complete bs ++ ended ∷ rest; finish = finish }))
unfolding read_data
read_data_lem init finish bs rest h =
    let read = read_loop_lem bs rest init h in
    record {
      stats = received_stats finish (u64 (init + length (concat bs)));
      result = rw read refl;
      role = refl;
      bytes = refl;
    }

module _ (block secs finish : ℕ) (measure : Bool) (s : Sends) (expected : List ℕ)
    (eight : length expected ≡ cookie_len) where
  served :
      (recv_data send_data : Bool) (chunks left : List Chunk) (head : List ℕ)
      → cookie_loop chunks [] ≡ some (head, left)
      → cookie_len ≤ length head
      → take cookie_len head ≡ expected
      → server_conn expected recv_data send_data block secs measure s
          (record { chunks = chunks; finish = finish })
        ≡ serve_data recv_data send_data block secs measure
            (u64 (length head - cookie_len))
            s
            (record { chunks = left; finish = finish })
  unfolding server_conn
  served recv_data send_data chunks left head c l e =
      let long : ltb (length head) cookie_len ≡ false = ground arith in
      rw (c, long, e, same_bytes_refl expected) refl

  refused :
      (recv_data send_data : Bool) (chunks left : List Chunk) (head : List ℕ)
      → cookie_loop chunks [] ≡ some (head, left)
      → take cookie_len head ≢ expected
      → server_conn expected recv_data send_data block secs measure s
          (record { chunks = chunks; finish = finish })
        ≡ some []
  unfolding server_conn
  refused recv_data send_data chunks left head c n =
      let other = same_bytes_ne (take cookie_len head) expected n in rw (c, other) (ground arith)

  -- In the p3 build, a data connection whose portions, up to its end, do not begin with the eight
  -- bytes of the expected cookie, or are fewer than eight bytes, is dropped without statistics,
  -- whatever the roles and whatever else there is.
  pub server_conn-refuses :
      (recv_data send_data : Bool) (bs : List (List ℕ)) (rest : List Chunk)
      → take cookie_len (concat bs) ≢ expected
      → server_conn expected recv_data send_data block secs measure s
          (record { chunks = map complete bs ++ ended ∷ rest; finish = finish })
        ≡ some []
  server_conn-refuses recv_data send_data bs rest n =
      elim (Bool-cases (ltb (length (concat bs)) cookie_len)) [
        | inl short ↦
            refused recv_data send_data (map complete bs ++ ended ∷ rest) rest (concat bs)
              (cookie_loop-short bs rest [] (ground arith)) n
        | inr long ↦
            let f = cookie_loop-Found bs rest [] (ground arith) in
            refused recv_data send_data (map complete bs ++ ended ∷ rest)
              (map complete f.left ++ ended ∷ rest) f.head f.result
              (λ e. n (
                ap (take cookie_len) (sym f.whole)
                ∙ take_append cookie_len f.head (concat f.left) f.enough
                ∙ e))
      ]

  -- A connection with the cookie, on the receiving side.
  pub server_conn-counts :
      (bs : List (List ℕ)) (sent : List ℕ) (rest : List Chunk)
      → concat bs ≡ expected ++ sent
      → length sent < 2 ^ 64
      → (v : StreamStats) × (server_conn expected true false block secs measure s
            (record { chunks = map complete bs ++ ended ∷ rest; finish = finish })
          ≡ some (v ∷ []))
        × (v.sender ≡ false)
        × (v.bytes_transferred ≡ length sent)
  unfolding serve_data
  server_conn-counts bs sent rest e l =
      let size = ap length e ∙ length-append expected sent in
      let f = cookie_loop-Found bs rest [] (omega arith) in
      let split = ap length f.whole in
      let sizes = length-append f.head (concat f.left) in
      let named =
        take_prefix expected sent f.head (concat f.left) (f.whole ∙ e) (omega (arith, f.enough)) in
      let leftover = u64 (length f.head - cookie_len) in
      let read = read_data_lem leftover finish f.left rest (omega arith) in
      (
        read.stats,
        served true false (map complete bs ++ ended ∷ rest) (map complete f.left ++ ended ∷ rest)
              f.head f.result f.enough (ap (λ n. take n f.head) (sym eight) ∙ named)
            ∙ rw read.result refl,
        read.role,
        omega (arith, read.bytes, f.enough),
      )
