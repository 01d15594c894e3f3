-- ===== src/P2/Controller/Protocol.antt =====
-- The life of a server's test, as a protocol over its state and the number of registered streams.
use netperf.Prelude.{ℕ, suc, ◌+◌, ◌≤◌, ◌≡◌, Bool, true, false, String, arith}
use netperf.P2.Control.{
  State, test_start, create_streams, running, exchange_results, display_results,
}

pub record View : Type 0 where
  pub state : State
  pub registered : ℕ

-- Streams come and go.
abbrev pub is_open : State → Bool
is_open (create_streams _) = true
is_open running = true
is_open _ = false

abbrev pub at : State → ℕ → View
at state n = record { state = state; registered = n }

-- `Step cookie total`: what a server of that cookie may do that needs `total` streams, while no
-- stream joins.
pub data Step (cookie : String) (total : ℕ) : View → View → Type 0 where
  begins : (n : ℕ) → Step cookie total (at test_start n) (at (create_streams cookie) n)
  fills : (st : State) → is_open st ≡ true → Step cookie total (at st total) (at running total)
  leaves :
      (st : State) (n m : ℕ)
      → is_open st ≡ true
      → m ≤ n
      → n ≤ suc m
      → Step cookie total (at st n) (at st m)
  empties : (st : State) → is_open st ≡ true → Step cookie total (at st 0) (at exchange_results 0)
  finishes : (n : ℕ) → Step cookie total (at exchange_results n) (at exchange_results 0)

-- What is reached with `k` connections at most, each of which is one stream more at most.
pub data Reach (cookie : String) (total : ℕ) (v : View) : ℕ → View → Type 0 where
  here : {k : ℕ} → Reach cookie total v k v
  then :
      {k : ℕ} {u w : View}
      → Reach cookie total v k u
      → Step cookie total u w
      → Reach cookie total v k w
  joins :
      {k : ℕ} (st : State) (n m : ℕ)
      → Reach cookie total v k (at st n)
      → is_open st ≡ true
      → n ≤ m
      → m ≤ suc n
      → Reach cookie total v (suc k) (at st m)

pub Reach-more :
    {cookie : String} {total : ℕ} {v w : View} {k : ℕ}
    → Reach cookie total v k w
    → Reach cookie total v (suc k) w
Reach-more here = here
Reach-more (then r s) = then (Reach-more r) s
Reach-more (joins st n m r o a b) = joins st n m (Reach-more r) o a b

-- The order of the states.
abbrev pub rank : State → ℕ
rank test_start = 0
rank (create_streams _) = 1
rank running = 2
rank exchange_results = 3
rank display_results = 4

Step-rank :
    {cookie : String} {total : ℕ} {v w : View} → Step cookie total v w → rank v.state ≤ rank w.state
Step-rank (begins n) = omega arith
Step-rank (fills (create_streams k) o) = omega arith
Step-rank (fills running o) = omega arith
Step-rank (fills test_start o) = omega arith
Step-rank (fills exchange_results o) = cc
Step-rank (fills display_results o) = cc
Step-rank (leaves st n m o a b) = omega arith
Step-rank (empties (create_streams k) o) = omega arith
Step-rank (empties running o) = omega arith
Step-rank (empties test_start o) = omega arith
Step-rank (empties exchange_results o) = omega arith
Step-rank (empties display_results o) = cc
Step-rank (finishes n) = omega arith

-- No state comes back.
pub Reach-rank :
    {cookie : String} {total : ℕ} {v w : View} {k : ℕ}
    → Reach cookie total v k w
    → rank v.state ≤ rank w.state
Reach-rank here = omega arith
Reach-rank (then r s) = omega (arith, Reach-rank r, Step-rank s)
Reach-rank (joins st n m r o a b) = Reach-rank r

Step-early :
    {cookie : String} {total : ℕ} {v w : View}
    → Step cookie total v w
    → rank v.state ≤ 3
    → rank w.state ≤ 3
Step-early (begins n) h = omega arith
Step-early (fills st o) h = omega arith
Step-early (leaves st n m o a b) h = h
Step-early (empties st o) h = omega arith
Step-early (finishes n) h = omega arith

-- DisplayResults is not reached.
pub Reach-early :
    {cookie : String} {total : ℕ} {v w : View} {k : ℕ}
    → Reach cookie total v k w
    → rank v.state ≤ 3
    → rank w.state ≤ 3
Reach-early here h = h
Reach-early (then r s) h = Step-early s (Reach-early r h)
Reach-early (joins st n m r o a b) h = Reach-early r h

-- Where `k` connections may have come since there were `n` streams.
abbrev Comes : (total n k : ℕ) → View → Type 0
Comes total n k w = (w.registered ≤ n + k) × (w.state ≡ running → total ≤ n + k)

Step-Comes :
    {cookie : String} {total : ℕ} {v w : View} (n k : ℕ)
    → Step cookie total v w
    → Comes total n k v
    → Comes total n k w
Step-Comes i k (begins m) h = (h.0, λ e. cc)
Step-Comes i k (fills st o) h = (h.0, λ e. h.0)
Step-Comes i k (leaves st n m o a b) h = (omega (arith, h.0), h.1)
Step-Comes i k (empties st o) h = (omega (arith, h.0), λ e. cc)
Step-Comes i k (finishes m) h = (omega arith, λ e. cc)

not_running : (st : State) → st ≡ running → rank st ≤ 1 → ⊥
not_running test_start e h = cc
not_running (create_streams k) e h = cc
not_running running e h = omega (arith, h)
not_running exchange_results e h = cc
not_running display_results e h = cc

Reach-Comes :
    {cookie : String} {total : ℕ} {v w : View} {k : ℕ}
    → Reach cookie total v k w
    → rank v.state ≤ 1
    → Comes total v.registered k w
Reach-Comes (here {k}) h = (omega arith, λ e. absurd (not_running _ e h))
Reach-Comes (then r s) h = Step-Comes _ _ s (Reach-Comes r h)
Reach-Comes (joins st n m r o a b) h =
    let (few, full) = Reach-Comes r h in
    (omega (arith, few), λ e. let enough = full e in omega (arith, enough))

-- Running is reached from an earlier state only if as many streams as are needed were there or came.
pub Reach-full :
    {cookie : String} {total : ℕ} {v w : View} {k : ℕ}
    → Reach cookie total v k w
    → rank v.state ≤ 1
    → w.state ≡ running
    → total ≤ v.registered + k
Reach-full r h e = (Reach-Comes r h).1 e
