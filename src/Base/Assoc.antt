-- ===== src/Base/Assoc.antt =====
-- `std::unordered_map` from word keys, as an association list.
use Prim.Native.Nat.{ℕ, suc, ◌+◌, ◌≤◌}
use mathlib.Core.Path.{◌≡◌, refl}
use mathlib.Core.Bool.{Bool, false}
use mathlib.Core.List.{List, [], ◌∷◌}
use mathlib.Core.Option.{Option, none, some}
use mathlib.Core.Option
use native.Mathlib.Omega.{arith}
use skan.Base.Tests.{◌==◌, if◌then◌else◌}
use skan.Base.Lists.{length}

abbrev pub Assoc {ℓ} : Type ℓ → Type ℓ
Assoc V = List (ℕ × V)

module _ {ℓ} {V : Type ℓ} where
  -- `find`
  unfoldable pub find : ℕ → Assoc V → Option V
  find k [] = none
  find k ((j, v) ∷ m) = if j == k then some v else find k m

  -- `emplace`: an entry that is there already stays.
  unfoldable pub emplace : ℕ → V → Assoc V → Assoc V
  emplace k v [] = (k, v) ∷ []
  emplace k v ((j, w) ∷ m) = if j == k then (j, w) ∷ m else (j, w) ∷ emplace k v m

  -- A write through an iterator.
  unfoldable pub modify : ℕ → (V → V) → Assoc V → Assoc V
  modify k f [] = []
  modify k f ((j, v) ∷ m) = if j == k then (j, f v) ∷ m else (j, v) ∷ modify k f m

  -- `erase`
  unfoldable pub erase : ℕ → Assoc V → Assoc V
  erase k [] = []
  erase k ((j, v) ∷ m) = if j == k then m else (j, v) ∷ erase k m

  -- The number of entries whose value passes the test.
  unfoldable pub count_if : (V → Bool) → Assoc V → ℕ
  count_if p [] = 0
  count_if p ((j, v) ∷ m) = (if p v then 1 else 0) + count_if p m

  -- The sum of a number that each value has.
  unfoldable pub sum_of : (V → ℕ) → Assoc V → ℕ
  sum_of f [] = 0
  sum_of f ((j, v) ∷ m) = f v + sum_of f m

  pub sum_of-emplace :
      (f : V → ℕ) (k : ℕ) (v : V) (m : Assoc V) → sum_of f (emplace k v m) ≤ f v + sum_of f m
  unfolding emplace sum_of
  sum_of-emplace f k v [] = omega arith
  sum_of-emplace f k v ((j, w) ∷ m) = ground (arith, sum_of-emplace f k v m)

  pub sum_of-erase_le : (f : V → ℕ) (k : ℕ) (m : Assoc V) → sum_of f (erase k m) ≤ sum_of f m
  unfolding erase sum_of
  sum_of-erase_le f k [] = omega arith
  sum_of-erase_le f k ((j, w) ∷ m) = ground (arith, sum_of-erase_le f k m)

  pub sum_of-erase :
      (f : V → ℕ) (k : ℕ) (v : V) (m : Assoc V)
      → find k m ≡ some v
      → f v + sum_of f (erase k m) ≡ sum_of f m
  unfolding find erase sum_of
  sum_of-erase f k v [] h = absurd (ground arith)
  sum_of-erase f k v ((j, w) ∷ m) h = ground (arith, sum_of-erase f k v m)

  pub sum_of-modify :
      (f : V → ℕ) (k : ℕ) (g : V → V) (m : Assoc V)
      → ((v : V) → f (g v) ≡ f v)
      → sum_of f (modify k g m) ≡ sum_of f m
  unfolding modify sum_of
  sum_of-modify f k g [] h = refl
  sum_of-modify f k g ((j, w) ∷ m) h = ground (arith, sum_of-modify f k g m h, h w)

  pub find-modify :
      (j k : ℕ) (f : V → V) (m : Assoc V)
      → find j (modify k f m) ≡ (if k == j then Option.map f (find j m) else find j m)
  unfolding find modify
  find-modify j k f [] = ground arith
  find-modify j k f ((i, v) ∷ m) = ground (arith, find-modify j k f m)

  pub find-emplace :
      (j k : ℕ) (v : V) (m : Assoc V)
      → find k m ≡ none
      → find j (emplace k v m) ≡ (if k == j then some v else find j m)
  unfolding find emplace
  find-emplace j k v [] h = ground arith
  find-emplace j k v ((i, w) ∷ m) h = ground (arith, find-emplace j k v m)

  pub length-emplace :
      (k : ℕ) (v : V) (m : Assoc V) → find k m ≡ none → length (emplace k v m) ≡ suc (length m)
  unfolding find emplace
  length-emplace k v [] h = refl
  length-emplace k v ((i, w) ∷ m) h = ground (arith, length-emplace k v m)

  pub length-erase :
      (k : ℕ) (v : V) (m : Assoc V) → find k m ≡ some v → suc (length (erase k m)) ≡ length m
  unfolding find erase
  length-erase k v [] h = absurd (ground arith)
  length-erase k v ((i, w) ∷ m) h = ground (arith, length-erase k v m)

  pub length-modify : (k : ℕ) (f : V → V) (m : Assoc V) → length (modify k f m) ≡ length m
  unfolding modify
  length-modify k f [] = refl
  length-modify k f ((i, w) ∷ m) = ground (arith, length-modify k f m)

  pub length-erase-le : (k : ℕ) (m : Assoc V) → length (erase k m) ≤ length m
  unfolding erase
  length-erase-le k [] = omega arith
  length-erase-le k ((i, w) ∷ m) = ground (arith, length-erase-le k m)

  pub find-erase_ne : (j k : ℕ) (m : Assoc V) → (k == j) ≡ false → find j (erase k m) ≡ find j m
  unfolding find erase
  find-erase_ne j k [] h = refl
  find-erase_ne j k ((i, w) ∷ m) h = ground (arith, find-erase_ne j k m)

  -- Writing one entry moves the count by the difference at that entry.
  pub count_if-modify :
      (p : V → Bool) (k : ℕ) (f : V → V) (v : V) (m : Assoc V)
      → find k m ≡ some v
      → count_if p (modify k f m) + (if p v then 1 else 0)
        ≡ count_if p m + (if p (f v) then 1 else 0)
  unfolding find modify count_if
  count_if-modify p k f v [] h = absurd (ground arith)
  count_if-modify p k f v ((i, w) ∷ m) h = ground (arith, count_if-modify p k f v m)

  pub count_if-emplace :
      (p : V → Bool) (k : ℕ) (v : V) (m : Assoc V)
      → find k m ≡ none
      → count_if p (emplace k v m) ≡ (if p v then 1 else 0) + count_if p m
  unfolding find emplace count_if
  count_if-emplace p k v [] h = refl
  count_if-emplace p k v ((i, w) ∷ m) h = ground (arith, count_if-emplace p k v m)
