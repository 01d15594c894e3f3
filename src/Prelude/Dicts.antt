-- ===== src/Prelude/Dicts.antt =====
-- `HashMap<usize, V>` as the list of its entries, one for each key, in some order of iteration.
use Prim.Native.Nat.{ℕ, suc, ◌+◌, ◌≤◌}
use mathlib.Core.Path.{◌≡◌, refl, sym, ◌∙◌, subst}
use mathlib.Core.Logic.{◌⊎◌, inl, inr, ◌≢◌}
use mathlib.Core.Bool.{false}
use mathlib.Core.Option.{Option, none, some}
use mathlib.Core.List.{List, [], ◌∷◌, ◌++◌}
use native.Mathlib.Omega.{arith}
use netperf.Prelude.Tests.{◌==◌, ==_iff, Bool-cases, if◌then◌else◌}
use netperf.Prelude.Lists.{length}

module _ {ℓ} {V : Type ℓ} where
  abbrev pub get : ℕ → List (ℕ × V) → Option V
  get k [] = none
  get k ((j, v) ∷ m) = if j == k then some v else get k m

  abbrev pub insert : ℕ → V → List (ℕ × V) → List (ℕ × V)
  insert k v [] = (k, v) ∷ []
  insert k v ((j, w) ∷ m) = if j == k then (k, v) ∷ m else (j, w) ∷ insert k v m

  abbrev pub remove : ℕ → List (ℕ × V) → List (ℕ × V)
  remove k [] = []
  remove k ((j, w) ∷ m) = if j == k then m else (j, w) ∷ remove k m

  pub get-insert :
      (k j : ℕ) (v : V) (m : List (ℕ × V))
      → get j (insert k v m) ≡ (if k == j then some v else get j m)
  get-insert k j v [] = refl
  get-insert k j v ((i, w) ∷ m) = ground (arith, get-insert k j v m)

  pub length-insert_new :
      (k : ℕ) (v : V) (m : List (ℕ × V)) → get k m ≡ none → length (insert k v m) ≡ suc (length m)
  length-insert_new k v [] h = refl
  length-insert_new k v ((i, w) ∷ m) h = ground (arith, length-insert_new k v m)

  pub get-remove_ne : (k j : ℕ) (m : List (ℕ × V)) → (k == j) ≡ false → get j (remove k m) ≡ get j m
  get-remove_ne k j [] h = refl
  get-remove_ne k j ((i, w) ∷ m) h = ground (arith, get-remove_ne k j m h)

  -- The entries are numbered from `i` on, in order.
  abbrev pub Numbered : ℕ → List (ℕ × V) → Type 0
  Numbered i [] = Unit
  Numbered i ((j, v) ∷ m) = (j ≡ i) × Numbered (suc i) m

  -- The next number is new, and its entry goes to the end.
  pub insert-Numbered :
      (i k : ℕ) (v : V) (m : List (ℕ × V))
      → k ≡ i + length m
      → Numbered i m
      → (insert k v m ≡ m ++ (k, v) ∷ []) × Numbered i (insert k v m)
  insert-Numbered i k v [] e h = (refl, (omega arith, tt))
  insert-Numbered i k v ((j, w) ∷ m) e h =
      ground (arith, insert-Numbered (suc i) k v m (omega arith) h.1)

  -- Having an entry for `k`.
  abbrev pub Has : ℕ → List (ℕ × V) → Type 0
  Has k [] = ⊥
  Has k ((j, v) ∷ m) = (j ≡ k) ⊎ Has k m

  pub Has-insert : (k j : ℕ) (v : V) (m : List (ℕ × V)) → Has k m → Has k (insert j v m)
  Has-insert k j v [] h = absurd h
  Has-insert k j v ((i, w) ∷ m) h = ground (arith, Has-insert k j v m)

  pub Has-remove : (k j : ℕ) (m : List (ℕ × V)) → j ≢ k → Has k m → Has k (remove j m)
  Has-remove k j [] n h = absurd h
  Has-remove k j ((i, w) ∷ m) n h = ground (arith, Has-remove k j m n)

  -- No two entries have one key.
  abbrev pub Unique : List (ℕ × V) → Type ℓ
  Unique [] = Unit
  Unique ((j, v) ∷ m) = (get j m ≡ none) × Unique m

  pub length-insert_bounds :
      (k : ℕ) (v : V) (m : List (ℕ × V))
      → (length m ≤ length (insert k v m)) × (length (insert k v m) ≤ suc (length m))
  length-insert_bounds k v [] = (omega arith, omega arith)
  length-insert_bounds k v ((j, w) ∷ m) = ground (arith, length-insert_bounds k v m)

  pub length-remove_bounds :
      (k : ℕ) (m : List (ℕ × V))
      → (length (remove k m) ≤ length m) × (length m ≤ suc (length (remove k m)))
  length-remove_bounds k [] = (omega arith, omega arith)
  length-remove_bounds k ((j, w) ∷ m) = ground (arith, length-remove_bounds k m)

  pub get-remove_self : (k : ℕ) (m : List (ℕ × V)) → Unique m → get k (remove k m) ≡ none
  get-remove_self k [] u = refl
  get-remove_self k ((i, w) ∷ m) u = ground (arith, get-remove_self k m u.1)

  pub remove-Unique : (k : ℕ) (m : List (ℕ × V)) → Unique m → Unique (remove k m)
  remove-Unique k [] u = tt
  remove-Unique k ((i, w) ∷ m) u =
      let kept = remove-Unique k m u.1 in
      elim (Bool-cases (i == k)) [
        | inl e ↦ rw e u.1
        | inr e ↦
            let other : (k == i) ≡ false = ground arith in
            rw e (get-remove_ne k i m other ∙ u.0, kept)
      ]

  -- The entries of `order` are taken out of a map one after the other, and `rest` is left.
  abbrev pub TakenOut : (order m rest : List (ℕ × V)) → Type ℓ
  TakenOut [] m rest = m ≡ rest
  TakenOut ((k, v) ∷ order) m rest = (get k m ≡ some v) × TakenOut order (remove k m) rest

  pub no_entries : (m : List (ℕ × V)) → ((k : ℕ) → get k m ≡ none) → m ≡ []
  no_entries [] h = refl
  no_entries ((j, v) ∷ m) h = let here = h j in absurd (ground (arith, here))

  -- A map can be taken apart in any order of its entries.
  pub get-TakenOut :
      (order m : List (ℕ × V))
      → Unique order
      → Unique m
      → ((k : ℕ) → get k order ≡ get k m)
      → TakenOut order m []
  get-TakenOut [] m u w h = no_entries m (λ k. sym (h k))
  get-TakenOut ((k, v) ∷ order) m u w h =
      let here : get k ((k, v) ∷ order) ≡ some v = ground arith in
      let same : (j : ℕ) → get j order ≡ get j (remove k m) = λ j. elim (Bool-cases (k == j)) [
        | inl e ↦ let eq = (==_iff k j).0 e in rw (← eq) (u.0 ∙ sym (get-remove_self k m w))
        | inr e ↦ let there = h j in sym (get-remove_ne k j m e ∙ sym there ∙ rw e refl)
      ] in
      (sym (h k) ∙ here, get-TakenOut order (remove k m) u.1 (remove-Unique k m w) same)

  pub insert-Unique : (k : ℕ) (v : V) (m : List (ℕ × V)) → Unique m → Unique (insert k v m)
  insert-Unique k v [] u = (refl, tt)
  insert-Unique k v ((j, w) ∷ m) u =
      let kept = insert-Unique k v m u.1 in
      elim (Bool-cases (j == k)) [
        | inl e ↦ let same = (==_iff j k).0 e in rw e (subst (λ i. get i m ≡ none) same u.0, u.1)
        | inr e ↦
            let other : (k == j) ≡ false = ground arith in
            rw e (get-insert k j v m ∙ rw other u.0, kept)
      ]
