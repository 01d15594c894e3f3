-- ===== src/P2/NetUtils/Keeps.antt =====
-- What every read keeps, `read_control_message` keeps; and one write is all that a send does.
use netperf.Prelude.{
  ℕ, zero, suc, ◌-◌, ◌≡◌, ◌==◌, refl, subst, ◌∙◌, Bool-cases, inl, inr, List, [], ◌∷◌, length, ltb,
  leb, ◌^◌, Option, none, some,
}
use netperf.P2.Data.{max_control_message}
use netperf.P2.Result.{Result, ok, err, panic, diverged, next}
use netperf.P2.Transport.{Transport, Json, Duplex}
use netperf.P2.NetUtils.{
  read_loop, read_more, read_payload, parse, send_json, send_control_message, read_control_message,
}

module _ (t : Transport) (P : t.Socket → Type 0)
    (read_keeps : (n : ℕ) (s : t.Socket) → P s → P (t.read n s).1)
    (read_u32_keeps : (s : t.Socket) → P s → P (t.read_u32 s).1) where
  next-keeps :
      {A B : Type 0} (x : Result A × t.Socket) (f : A → t.Socket → Result B × t.Socket)
      → P x.1
      → ((a : A) (s : t.Socket) → P s → P (f a s).1)
      → P (next x f).1
  next-keeps (ok a, s) f p h = h a s p
  next-keeps (err e, s) f p h = p
  next-keeps (panic, s) f p h = p
  next-keeps (diverged, s) f p h = p

  pub read_loop-keeps :
      (fuel remaining : ℕ) (buf : List ℕ) (s : t.Socket)
      → P s
      → P (read_loop t fuel remaining buf s).1
  unfolding read_loop
  read_loop-keeps zero remaining buf s p = elim (Bool-cases (remaining == 0)) [
    | inl e ↦ rw e p
    | inr e ↦ rw e p
  ]
  read_loop-keeps (suc fuel) remaining buf s p = elim (Bool-cases (remaining == 0)) [
    | inl e ↦ rw e p
    | inr e ↦
        rw e (
          next-keeps (t.read remaining s) _ (read_keeps remaining s p)
            (more (read_loop-keeps fuel)))
  ]
    where
      more :
          ((remaining : ℕ) (buf : List ℕ) (s : t.Socket)
            → P s
            → P (read_loop t fuel remaining buf s).1)
          → (bytes : List ℕ) (s : t.Socket) → P s
          → P (read_more t (read_loop t fuel) remaining buf bytes s).1
      more ih [] s p = p
      more ih (b ∷ bs) s p = ih _ _ s p

  parse-keeps : {A : Type 0} (o : Option A) (s : t.Socket) → P s → P (parse t o s).1
  unfolding parse
  parse-keeps none s p = p
  parse-keeps (some a) s p = p

  read_payload-keeps :
      {A : Type 0} (j : Json A) (n : ℕ) (s : t.Socket) → P s → P (read_payload t j n s).1
  unfolding read_payload
  read_payload-keeps j n s p = elim (Bool-cases (ltb max_control_message n)) [
    | inl e ↦ rw e p
    | inr e ↦ rw e (
        next-keeps (read_loop t n n [] s) _ (read_loop-keeps n n [] s p) (λ buf u q.
          elim (Bool-cases (n == length buf)) [
            | inl f ↦ rw f (parse-keeps (j.from_slice buf) u q)
            | inr f ↦ rw f q
          ]))
  ]

  pub read_control_message-keeps :
      {A : Type 0} (j : Json A) (s : t.Socket) → P s → P (read_control_message t j s).1
  unfolding read_control_message
  read_control_message-keeps j s p =
      next-keeps (t.read_u32 s) (read_payload t j) (read_u32_keeps s p) (read_payload-keeps j)

module _ (t : Transport) (P : t.Socket → Type 0)
    (write_keeps : (bytes : List ℕ) (s : t.Socket) → P s → P (t.write_all bytes s).1) where
  send_json-keeps : (o : Option (List ℕ)) (s : t.Socket) → P s → P (send_json t o s).1
  unfolding send_json
  send_json-keeps none s p = p
  send_json-keeps (some payload) s p = elim (Bool-cases (leb (length payload) (2 ^ 32 - 1))) [
    | inl e ↦ rw e (write_keeps _ s p)
    | inr e ↦ rw e p
  ]

  pub send_control_message-keeps :
      {A : Type 0} (j : Json A) (m : A) (s : t.Socket) → P s → P (send_control_message t j m s).1
  unfolding send_control_message
  send_control_message-keeps j m s p = send_json-keeps (j.to_string m) s p

module _ (t : Transport) (d : Duplex t) {A : Type 0} (j : Json A) (s s' : t.Socket) where
  -- A send leaves alone what arrives.
  pub send-keeps-pending :
      (m : A) {x : Result (Unit {0})}
      → d.reads.IsOpen s
      → send_control_message t j m s ≡ (x, s')
      → d.reads.IsOpen s' × (d.reads.pending s' ≡ d.reads.pending s)
  send-keeps-pending m o e =
      subst (λ x. Same x.1) e (send_control_message-keeps t Same keeps j m s (o, refl))
    where
      Same : t.Socket → Type 0
      Same u = d.reads.IsOpen u × (d.reads.pending u ≡ d.reads.pending s)

      keeps : (bytes : List ℕ) (u : t.Socket) → Same u → Same (t.write_all bytes u).1
      keeps bytes u p = let (still, same) = d.write_keeps bytes u p.0 in (still, same ∙ p.1)

  -- A read leaves alone what was sent.
  pub read-keeps-sent :
      {x : Result A}
      → d.writes.IsOpen s
      → read_control_message t j s ≡ (x, s')
      → d.writes.IsOpen s' × (d.writes.sent s' ≡ d.writes.sent s)
  read-keeps-sent o e =
      subst (λ x. Same x.1) e (read_control_message-keeps t Same keeps keeps_u32 j s (o, refl))
    where
      Same : t.Socket → Type 0
      Same u = d.writes.IsOpen u × (d.writes.sent u ≡ d.writes.sent s)

      keeps : (n : ℕ) (u : t.Socket) → Same u → Same (t.read n u).1
      keeps n u p = let (still, same) = d.read_keeps n u p.0 in (still, same ∙ p.1)

      keeps_u32 : (u : t.Socket) → Same u → Same (t.read_u32 u).1
      keeps_u32 u p = let (still, same) = d.read_u32_keeps u p.0 in (still, same ∙ p.1)
