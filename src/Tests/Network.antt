-- ===== src/Tests/Network.antt =====
-- A network for the tests: sockets as lists of bytes that are read three at a time, a table of
-- JSON texts, queues, and workers that end at once.
use Prim.Native.Nat.{min}
use netperf.Prelude.{
  ℕ, ◌+◌, ◌*◌, ◌<◌, ◌^◌, ◌≡◌, ◌≢◌, refl, sym, ap, inl, inr, List, [], ◌∷◌, ◌++◌, length, take, drop,
  take-append-drop, length-take, List-cases, arith,
}
use netperf.Prelude.Bytes.{be_bytes}
use netperf.P2.Result.{Result, ok, err, io}
use netperf.P2.Transport.{Transport, Reads, Writes, Duplex}

pub record Wire : Type 0 where
  pub incoming : List ℕ
  pub outgoing : List ℕ

abbrev pub number_of : List ℕ → Wire → Result ℕ × Wire
number_of (a ∷ b ∷ c ∷ d ∷ rest) s =
    (ok (a * 2 ^ 24 + b * 2 ^ 16 + c * 2 ^ 8 + d), record s { incoming = rest })
number_of _ s = (err io, s)

abbrev pub wires : Transport
wires = record {
  Socket = Wire;
  read = λ n s. (ok (take (min n 3) s.incoming), record s { incoming = drop (min n 3) s.incoming });
  read_u32 = λ s. number_of s.incoming s;
  write_all = λ bytes s. (ok tt, record s { outgoing = s.outgoing ++ bytes });
}

pub take_pos : (n : ℕ) (l : List ℕ) → 0 < n → l ≢ [] → 0 < length (take (min n 3) l)
take_pos n l h ne = elim (List-cases l) [
  | inl e ↦ absurd (ne e)
  | inr (a, r, e) ↦ omega (arith, length-take (min n 3) l, ap length e)
]

pub number_of-be_bytes :
    (n : ℕ) (rest l : List ℕ) (s : Wire)
    → n < 2 ^ 32
    → l ≡ be_bytes n ++ rest
    → number_of l s ≡ (ok n, record s { incoming = rest })
number_of-be_bytes n rest l s h e = rw e (ground arith)

pub no_number_of : (l : List ℕ) (s : Wire) → length l < 4 → number_of l s ≡ (err io, s)
no_number_of [] s h = refl
no_number_of (a ∷ []) s h = refl
no_number_of (a ∷ b ∷ []) s h = refl
no_number_of (a ∷ b ∷ c ∷ []) s h = refl
no_number_of (a ∷ b ∷ c ∷ d ∷ l) s h = absurd (omega arith)

abbrev pub wires_Reads : Reads wires
wires_Reads = record {
  IsOpen = λ s. Unit;
  pending = λ s. s.incoming;
  receipt = λ n s o. record {
    bytes = take (min n 3) s.incoming;
    after = record s { incoming = drop (min n 3) s.incoming };
    result = refl;
    still_open = tt;
    in_order = sym (take-append-drop (min n 3) s.incoming);
    at_most = omega (arith, length-take (min n 3) s.incoming);
    progress = take_pos n s.incoming;
  };
  number = λ n rest s o h e.
      (record s { incoming = rest }, number_of-be_bytes n rest s.incoming s h e, tt, refl);
  no_number = λ s o h. (s, no_number_of s.incoming s h);
}

abbrev pub wires_Writes : Writes wires
wires_Writes = record {
  IsOpen = λ s. Unit;
  sent = λ s. s.outgoing;
  written = λ bytes s o. (record s { outgoing = s.outgoing ++ bytes }, refl, tt, refl);
}

pub number_of-keeps : (l : List ℕ) (s : Wire) → (number_of l s).1.outgoing ≡ s.outgoing
number_of-keeps [] s = refl
number_of-keeps (a ∷ []) s = refl
number_of-keeps (a ∷ b ∷ []) s = refl
number_of-keeps (a ∷ b ∷ c ∷ []) s = refl
number_of-keeps (a ∷ b ∷ c ∷ d ∷ l) s = refl

abbrev pub wires_Duplex : Duplex wires
wires_Duplex = record {
  reads = wires_Reads;
  writes = wires_Writes;
  write_keeps = λ bytes s o. (tt, refl);
  read_keeps = λ n s o. (tt, refl);
  read_u32_keeps = λ s o. (tt, number_of-keeps s.incoming s);
}
