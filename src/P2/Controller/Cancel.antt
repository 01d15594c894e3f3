-- ===== src/P2/Controller/Cancel.antt =====
-- A client's select drops the read of the control socket when a message of the channel wins.
use netperf.Prelude.{
  ℕ, ◌+◌, ◌*◌, ◌/◌, ◌%◌, ◌^◌, ◌<◌, ◌≡◌, refl, sym, ap, ◌∙◌, List, [], ◌∷◌, ◌++◌, arith,
}
use netperf.Prelude.Bytes.{be_bytes}
use netperf.P2.Data.{max_control_message}
use netperf.P2.Result.{err, unusually_large}
use netperf.P2.Transport.{Reads}
use netperf.P2.Runtime.{Runtime}
use netperf.P2.NetUtils.{client_read_message}
use netperf.P2.NetUtils.Receive.{read_loop_zero}
use netperf.P2.NetUtils.RoundTrip.{read_control_message-large}
use netperf.P2.Controller.{Socket}
use netperf.P2.Controller.Loop.{abandon}

abbrev word : ℕ → ℕ → ℕ → ℕ → ℕ
word a b c d = a * 2 ^ 24 + b * 2 ^ 16 + c * 2 ^ 8 + d

be_bytes-word :
    (a b c d : ℕ)
    → a < 256
    → b < 256
    → c < 256
    → d < 256
    → be_bytes (word a b c d) ≡ a ∷ b ∷ c ∷ d ∷ []
be_bytes-word a b c d ha hb hc hd =
    let first : word a b c d / 2 ^ 24 % 256 ≡ a = omega arith in
    let second : word a b c d / 2 ^ 16 % 256 ≡ b = omega arith in
    let third : word a b c d / 2 ^ 8 % 256 ≡ c = omega arith in
    let fourth : word a b c d % 256 ≡ d = omega arith in rw (first, second, third, fourth) refl

module _ (env : Runtime) where
  open env use {transport, server_json}

  -- If a read of a control message is dropped behind its length, and the payload begins with `{`
  -- and three more bytes, the next read takes these four bytes for a length and fails with an
  -- unusually large header.
  pub client_read_message-abandon :
      (r : Reads transport) (n a b c : ℕ) (rest : List ℕ) (s : Socket env)
      → r.IsOpen s
      → n < 2 ^ 32
      → a < 256
      → b < 256
      → c < 256
      → r.pending s ≡ be_bytes n ++ b'{' ∷ a ∷ b ∷ c ∷ rest
      → (s' : Socket env) × (client_read_message transport server_json (abandon env 1 s)
          ≡ (err (unusually_large (word b'{' a b c / 1024) max_control_message), s'))
  unfolding abandon client_read_message
  client_read_message-abandon r n a b c rest s o h ha hb hc p =
      let (s₁, size, o₁, left) = r.number n (b'{' ∷ a ∷ b ∷ c ∷ rest) s o h p in
      let same = read_loop_zero transport n [] s₁ in
      let bytes = be_bytes-word b'{' a b c (omega arith) ha hb hc in
      let (s₂, refused, _) =
        read_control_message-large transport server_json r (word b'{' a b c) rest s₁ o₁
          (omega arith) (omega arith) (left ∙ ap (λ l. l ++ rest) (sym bytes)) in
      (s₂, rw (size, same, refused) refl)
