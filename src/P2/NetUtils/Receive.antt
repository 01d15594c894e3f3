-- ===== src/P2/NetUtils/Receive.antt =====
-- The loop of `read_control_message` on a stream in working order, whatever its portions.
use mathlib.Core.List.{append_assoc, append-nil}
use netperf.Prelude.{
  ℕ, zero, suc, ◌-◌, ◌≤◌, ◌<◌, ◌≡◌, refl, sym, ap, ◌∙◌, List, [], ◌∷◌, ◌++◌, length, length-append,
  arith, List-cases, inl, inr,
}
use netperf.P2.Result.{ok, err, message}
use netperf.P2.Transport.{Transport, Reads}
use netperf.P2.NetUtils.{read_loop}

append_split :
    (bs xs want rest : List ℕ)
    → bs ++ xs ≡ want ++ rest
    → length bs ≤ length want
    → (w : List ℕ) × (want ≡ bs ++ w) × (xs ≡ w ++ rest)
append_split [] xs want rest e h = (want, refl, e)
append_split (b ∷ bs) xs [] rest e h = absurd (omega arith)
append_split (b ∷ bs) xs (c ∷ want) rest e h =
    let (w, p, q) = append_split bs xs want rest (cc) (omega arith) in (w, cc, q)

module _ (t : Transport) (r : Reads t) where
  open r use {IsOpen, pending, receipt}

  -- What a round that reads something leaves to be done.
  read_round :
      (fuel remaining : ℕ) (buf : List ℕ) (b : ℕ) (bs : List ℕ) (s s' : t.Socket)
      → t.read (suc remaining) s ≡ (ok (b ∷ bs), s')
      → read_loop t (suc fuel) (suc remaining) buf s
        ≡ read_loop t fuel (suc remaining - length (b ∷ bs)) (buf ++ b ∷ bs) s'
  unfolding read_loop
  read_round fuel remaining buf b bs s s' e = rw e (ground arith)

  read_end :
      (fuel remaining : ℕ) (buf : List ℕ) (s s' : t.Socket)
      → t.read (suc remaining) s ≡ (ok [], s')
      → read_loop t (suc fuel) (suc remaining) buf s
        ≡ (err (message "Connected was closed by peer."), s')
  unfolding read_loop
  read_end fuel remaining buf s s' e = rw e (ground arith)

  -- What a receipt says when the stream holds `want ++ rest`: there is a first portion, and the
  -- others are still to come.
  portion :
      (c : ℕ) (want rest : List ℕ) (s : t.Socket)
      → IsOpen s
      → pending s ≡ (c ∷ want) ++ rest
      → (b : ℕ) × (bs : List ℕ) × (w : List ℕ) × (s' : t.Socket) × (t.read (suc (length want)) s
          ≡ (ok (b ∷ bs), s'))
        × IsOpen s'
        × (c ∷ want ≡ (b ∷ bs) ++ w)
        × (pending s' ≡ w ++ rest)
  portion c want rest s o p =
      let got = receipt (suc (length want)) s o in
      let (w, whole, left) =
        append_split got.bytes (pending got.after) (c ∷ want) rest (sym got.in_order ∙ p)
          got.at_most in
      elim (List-cases got.bytes) [
        | inl none ↦ absurd (omega (arith, got.progress (omega arith) (λ e. cc), ap length none))
        | inr (b, bs, some) ↦
            (b, bs, w, got.after, rw (← some) got.result, got.still_open, cc, left)
      ]

  -- With the payload on its way, the loop returns exactly it, and takes nothing that follows.
  pub read_loop_complete :
      (fuel : ℕ) (buf want rest : List ℕ) (s : t.Socket)
      → IsOpen s
      → length want ≤ fuel
      → pending s ≡ want ++ rest
      → (s' : t.Socket) × (read_loop t fuel (length want) buf s ≡ (ok (buf ++ want), s'))
        × IsOpen s'
        × (pending s' ≡ rest)
  read_loop_complete zero buf [] rest s o h p = (s, unfold read_loop in rw append-nil refl, o, p)
  read_loop_complete zero buf (c ∷ want) rest s o h p = absurd (omega arith)
  read_loop_complete (suc fuel) buf [] rest s o h p =
      (s, unfold read_loop in rw append-nil refl, o, p)
  read_loop_complete (suc fuel) buf (c ∷ want) rest s o h p =
      let (b, bs, w, s₁, first, o₁, whole, left) = portion c want rest s o p in
      let sizes = ap length whole ∙ length-append (b ∷ bs) w in
      let (s₂, others, o₂, final) =
        read_loop_complete fuel (buf ++ b ∷ bs) w rest s₁ o₁ (omega arith) left in
      let fewer : suc (length want) - length (b ∷ bs) ≡ length w = omega arith in
      (
        s₂,
        read_round fuel (length want) buf b bs s s₁ first
            ∙ rw fewer others
            ∙ ap (λ l. (ok l, s₂)) (append_assoc buf (b ∷ bs) w ∙ ap (λ l. buf ++ l) (sym whole)),
        o₂,
        final,
      )

  -- A stream that ends inside the payload is an error.
  pub read_loop_short :
      (fuel remaining : ℕ) (buf : List ℕ) (s : t.Socket)
      → IsOpen s
      → remaining ≤ fuel
      → length (pending s) < remaining
      → (s' : t.Socket) × (read_loop t fuel remaining buf s
          ≡ (err (message "Connected was closed by peer."), s'))
  read_loop_short fuel zero buf s o h l = absurd (omega arith)
  read_loop_short zero (suc k) buf s o h l = absurd (omega arith)
  read_loop_short (suc fuel) (suc k) buf s o h l =
      let got = receipt (suc k) s o in
      let sizes = ap length got.in_order ∙ length-append got.bytes (pending got.after) in
      elim (List-cases got.bytes) [
        | inl none ↦ (got.after, read_end fuel k buf s got.after (rw (← none) got.result))
        | inr (b, bs, some) ↦
            let size = ap length some in
            let (s', closed) =
              read_loop_short fuel (suc k - length (b ∷ bs)) (buf ++ b ∷ bs) got.after
                got.still_open (omega arith) (omega arith) in
            (s', read_round fuel k buf b bs s got.after (rw (← some) got.result) ∙ closed)
      ]

-- With no round left the socket is as it was.
pub read_loop_zero :
    (t : Transport) (remaining : ℕ) (buf : List ℕ) (s : t.Socket)
    → (read_loop t 0 remaining buf s).1 ≡ s
unfolding read_loop
read_loop_zero t remaining buf s = ground arith
