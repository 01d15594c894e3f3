-- ===== src/Tests/Codec.antt =====
-- Texts for the messages of the p3 build: those of parameters, and of the results of one stream.
use netperf.Prelude.{
  ℕ, zero, suc, ◌≡◌, refl, ap, sym, ◌∙◌, Bool, true, false, Option, none, some, List, [], ◌∷◌,
}
use netperf.Core.Stats.{StreamStats, LatencyStats, TestResults}
use netperf.P3.Session.{Params, Codec}
use netperf.P3.Session.Negotiation.{IsCodec}

-- A codec for parameters, and for the results of one stream without latency.
abbrev bool_number : Bool → ℕ
bool_number false = 0
bool_number true = 1

abbrev number_bool : ℕ → Bool
number_bool zero = false
number_bool (suc n) = true

abbrev params_text : Params → Option (List ℕ)
params_text p =
    some (p.dir ∷ p.secs ∷ p.block ∷ p.parallel ∷ p.cookie ∷ bool_number p.measure_latency ∷ [])

abbrev params_value : List ℕ → Option Params
params_value (dir ∷ secs ∷ block ∷ parallel ∷ key ∷ latency ∷ []) = some (record {
  dir = dir;
  secs = secs;
  block = block;
  parallel = parallel;
  cookie = key;
  measure_latency = number_bool latency;
})
params_value _ = none

abbrev stats_text : ℕ → StreamStats → Option LatencyStats → Option (List ℕ)
stats_text id s none =
    some (id ∷ bool_number s.sender ∷ s.duration_millis ∷ s.bytes_transferred ∷ s.syscalls ∷ [])
stats_text id s (some lat) = none

abbrev results_text : List (ℕ × StreamStats) → Option (List ℕ)
results_text ((id, s) ∷ []) = stats_text id s s.latency
results_text _ = none

abbrev results_value : List ℕ → Option TestResults
results_value (id ∷ sender ∷ millis ∷ bytes ∷ calls ∷ []) = some (record {
  streams =
      (
        id,
        record {
          sender = number_bool sender;
          duration_millis = millis;
          bytes_transferred = bytes;
          syscalls = calls;
          latency = none;
        },
      )
      ∷ [];
})
results_value _ = none

abbrev pub codec : Codec
codec = record {
  params_to_vec = params_text;
  params_from_slice = params_value;
  results_to_vec = λ r. results_text r.streams;
  results_from_slice = results_value;
}

number_bool-bool_number : (b : Bool) → number_bool (bool_number b) ≡ b
number_bool-bool_number true = refl
number_bool-bool_number false = refl

-- A text that is known is read as what it was written for.
read_back :
    {A : Type 0} (f : List ℕ → Option A) (l bytes : List ℕ) (a : A)
    → f l ≡ some a
    → some l ≡ some bytes
    → f bytes ≡ some a
read_back f l bytes a h e = cc

params_back :
    (p : Params) (bytes : List ℕ) → params_text p ≡ some bytes → params_value bytes ≡ some p
params_back p bytes e =
    let same =
      ap (λ b. some (record p { measure_latency = b }))
        (number_bool-bool_number p.measure_latency) in
    read_back params_value _ bytes p same e

stats_back :
    (id : ℕ) (s : StreamStats) (o : Option LatencyStats) (bytes : List ℕ)
    → s.latency ≡ o
    → stats_text id s o ≡ some bytes
    → results_value bytes ≡ some (record { streams = (id, s) ∷ [] })
stats_back id s (some lat) bytes h e = cc
stats_back id s none bytes h e =
    let side = number_bool-bool_number s.sender in
    let same =
      ap (λ b. some (record { streams = (id, record s { sender = b; latency = none }) ∷ [] })) side
      ∙ ap (λ l. some (record { streams = (id, record s { latency = l }) ∷ [] })) (sym h) in
    read_back results_value _ bytes (record { streams = (id, s) ∷ [] }) same e

results_back :
    (l : List (ℕ × StreamStats)) (bytes : List ℕ)
    → results_text l ≡ some bytes
    → results_value bytes ≡ some (record { streams = l })
results_back [] bytes e = cc
results_back ((id, s) ∷ []) bytes e = stats_back id s s.latency bytes refl e
results_back ((id, s) ∷ x ∷ l) bytes e = cc

pub codec-IsCodec : IsCodec codec
codec-IsCodec = record { params_back = params_back; results_back = λ r. results_back r.streams }
