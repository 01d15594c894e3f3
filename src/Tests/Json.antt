-- ===== src/Tests/Json.antt =====
-- Numbers in place of JSON: parameters, results and strings as lists of them, and back.
use text.Mathlib.Text.{◌==◌ as str_eq}
use text.Mathlib.TextEquality.{eq_iff}
use netperf.Prelude.{
  ℕ, zero, suc, ◌≡◌, refl, sym, ap, ◌∙◌, Bool, true, false, Bool-cases, inl, inr, List, [], ◌∷◌,
  Option, none, some, String, if◌then◌else◌,
}
use netperf.P2.Data.{TestParameters}
use netperf.Core.Stats.{
  Direction, client_to_server, server_to_client, bidirectional, TestResults, StreamStats,
  LatencyStats,
}

abbrev pub text_if : Bool → List ℕ → Option (List ℕ)
text_if b l = if b then some l else none

abbrev pub two_texts : String → String → List ℕ → String → List ℕ → Option (List ℕ)
two_texts text a l b m = if str_eq text a then some l else text_if (str_eq text b) m

abbrev pub direction_number : Direction → ℕ
direction_number client_to_server = 0
direction_number server_to_client = 1
direction_number bidirectional = 2

abbrev pub number_direction : ℕ → Direction
number_direction zero = client_to_server
number_direction (suc zero) = server_to_client
number_direction (suc (suc n)) = bidirectional

abbrev pub option_number : Option ℕ → ℕ
option_number none = 0
option_number (some n) = suc n

abbrev pub number_option : ℕ → Option ℕ
number_option zero = none
number_option (suc n) = some n

abbrev pub bool_number : Bool → ℕ
bool_number false = 0
bool_number true = 1

abbrev pub number_bool : ℕ → Bool
number_bool zero = false
number_bool (suc n) = true

-- Five numbers for each stream, of those without latency.
abbrev pub stream_numbers :
    Option LatencyStats → ℕ → StreamStats → Option (List ℕ) → Option (List ℕ)
stream_numbers none id s (some l) =
    some (id ∷ bool_number s.sender ∷ s.duration_millis ∷ s.bytes_transferred ∷ s.syscalls ∷ l)
stream_numbers _ id s _ = none

abbrev pub streams_numbers : List (ℕ × StreamStats) → Option (List ℕ)
streams_numbers [] = some []
streams_numbers ((id, s) ∷ m) = stream_numbers s.latency id s (streams_numbers m)

abbrev pub stream_of : (sender duration bytes calls : ℕ) → StreamStats
stream_of sender duration bytes calls = record {
  sender = number_bool sender;
  duration_millis = duration;
  bytes_transferred = bytes;
  syscalls = calls;
  latency = none;
}

abbrev pub numbers_streams : List ℕ → List (ℕ × StreamStats)
numbers_streams (id ∷ sender ∷ duration ∷ bytes ∷ calls ∷ l) =
    (id, stream_of sender duration bytes calls) ∷ numbers_streams l
numbers_streams _ = []

abbrev pub headed : Option (List ℕ) → Option (List ℕ)
headed none = none
headed (some l) = some (b'{' ∷ 3 ∷ l)

abbrev pub results_text : List (ℕ × StreamStats) → Option (List ℕ)
results_text streams = headed (streams_numbers streams)

abbrev pub results_value : List ℕ → TestResults
results_value l = record { streams = numbers_streams l }

-- A number for each field but the version, which is one and the same.
abbrev pub fields : TestParameters → List ℕ
fields p =
    b'{'
    ∷ 5
    ∷ direction_number p.direction
    ∷ p.omit_seconds
    ∷ p.time_seconds
    ∷ p.parallel
    ∷ p.block_size
    ∷ option_number p.socket_buffers
    ∷ bool_number p.measure_latency
    ∷ []

abbrev pub parameters : (d o t p b s m : ℕ) → String → TestParameters
parameters d o t p b s m version = record {
  direction = number_direction d;
  omit_seconds = o;
  time_seconds = t;
  parallel = p;
  block_size = b;
  client_version = version;
  socket_buffers = number_option s;
  measure_latency = number_bool m;
}

-- A text of the table is read as what it was written for.
pub read_back :
    {A : Type 0} (f : List ℕ → Option A) (l bytes : List ℕ) (a : A)
    → f l ≡ some a
    → some l ≡ some bytes
    → f bytes ≡ some a
read_back f l bytes a h e = cc

pub number_bool-bool_number : (b : Bool) → number_bool (bool_number b) ≡ b
number_bool-bool_number false = refl
number_bool-bool_number true = refl

abbrev stream_numbered : Bool → StreamStats → StreamStats
stream_numbered b s = record s { sender = b; latency = none }

stream_back :
    (o : Option LatencyStats) (id : ℕ) (s : StreamStats) (m : List (ℕ × StreamStats))
    (t : Option (List ℕ)) (l : List ℕ)
    → s.latency ≡ o
    → ((rest : List ℕ) → t ≡ some rest → numbers_streams rest ≡ m)
    → stream_numbers o id s t ≡ some l
    → numbers_streams l ≡ (id, s) ∷ m
stream_back none id s m none l h k e = cc
stream_back (some x) id s m t l h k e = cc
stream_back none id s m (some rest) l h k e =
    let same : stream_of (bool_number s.sender) s.duration_millis s.bytes_transferred s.syscalls
        ≡ s =
      ap (λ b. stream_numbered b s) (number_bool-bool_number s.sender)
      ∙ ap (λ x. record s { latency = x }) (sym h) in
    let known : numbers_streams
          (id ∷ bool_number s.sender ∷ s.duration_millis ∷ s.bytes_transferred ∷ s.syscalls ∷ rest)
        ≡ (id, s) ∷ m =
      rw (k rest refl) (ap (λ x. (id, x) ∷ m) same) in
    cc

streams_back :
    (m : List (ℕ × StreamStats)) (l : List ℕ) → streams_numbers m ≡ some l → numbers_streams l ≡ m
streams_back [] l e = let known : numbers_streams [] ≡ [] = refl in cc
streams_back ((id, s) ∷ m) l e =
    stream_back s.latency id s m (streams_numbers m) l refl (streams_back m) e

pub results_back :
    {A : Type 0} (f : List ℕ → Option A) (make : TestResults → A) (m : List (ℕ × StreamStats))
    (o : Option (List ℕ)) (bytes : List ℕ)
    → ((l : List ℕ) → f (b'{' ∷ 3 ∷ l) ≡ some (make (results_value l)))
    → streams_numbers m ≡ o
    → headed o ≡ some bytes
    → f bytes ≡ some (make (record { streams = m }))
results_back f make m none bytes h k e = cc
results_back f make m (some l) bytes h k e =
    let known : f (b'{' ∷ 3 ∷ l) ≡ some (make (record { streams = m })) =
      h l ∙ ap (λ q. some (make (record { streams = q }))) (streams_back m l k) in
    cc

pub text_back :
    {A : Type 0} (f : List ℕ → Option A) (make : String → A) (text known : String)
    (l bytes : List ℕ)
    → f l ≡ some (make known)
    → text_if (str_eq text known) l ≡ some bytes
    → f bytes ≡ some (make text)
text_back f make text known l bytes h e = elim (Bool-cases (str_eq text known)) [
  | inl q ↦ rw ((eq_iff text known).0 q) (read_back f l bytes (make known) h (rw q at e))
  | inr q ↦ let no_text = rw q at e in cc
]

pub two_back :
    {A : Type 0} (f : List ℕ → Option A) (make : String → A) (text a b : String)
    (l m bytes : List ℕ)
    → f l ≡ some (make a)
    → f m ≡ some (make b)
    → two_texts text a l b m ≡ some bytes
    → f bytes ≡ some (make text)
two_back f make text a b l m bytes h k e = elim (Bool-cases (str_eq text a)) [
  | inl q ↦ rw ((eq_iff text a).0 q) (read_back f l bytes (make a) h (rw q at e))
  | inr q ↦ text_back f make text b m bytes k (rw q at e)
]

pub number_direction-direction_number : (d : Direction) → number_direction (direction_number d) ≡ d
number_direction-direction_number client_to_server = refl
number_direction-direction_number server_to_client = refl
number_direction-direction_number bidirectional = refl

pub number_option-option_number : (o : Option ℕ) → number_option (option_number o) ≡ o
number_option-option_number none = refl
number_option-option_number (some n) = refl
