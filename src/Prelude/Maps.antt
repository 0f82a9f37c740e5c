-- ===== src/Prelude/Maps.antt =====
-- `std::unordered_map` with numbers for keys: an association list with one entry for each key.
use Prim.Native.Nat.{ℕ, ◌+◌}
use mathlib.Core.Path.{◌≡◌, refl}
use mathlib.Core.Logic.{◌≢◌}
use mathlib.Core.Bool.{true, ◌||◌}
use mathlib.Core.List.{List, [], ◌∷◌}
use mathlib.Core.Option.{Option, none, some}
use native.Mathlib.Omega.{arith}
use lserver.Prelude.Tests.{◌==◌, if◌then◌else◌}
use lserver.Prelude.Lists.{length, elem, Distinct}

abbrev pub Map {ℓ} : Type ℓ → Type ℓ
Map V = List (ℕ × V)

module _ {ℓ} {V : Type ℓ} where
  unfoldable pub lookup : ℕ → Map V → Option V
  lookup k [] = none
  lookup k ((j, v) ∷ m) = if j == k then some v else lookup k m

  -- `insert_or_assign`, and `m[k] = v`.
  unfoldable pub assign : ℕ → V → Map V → Map V
  assign k v [] = (k, v) ∷ []
  assign k v ((j, w) ∷ m) = if j == k then (j, v) ∷ m else (j, w) ∷ assign k v m

  -- `emplace`: an entry that is there stays.
  unfoldable pub emplace : ℕ → V → Map V → Map V
  emplace k v [] = (k, v) ∷ []
  emplace k v ((j, w) ∷ m) = if j == k then (j, w) ∷ m else (j, w) ∷ emplace k v m

  pub lookup-assign :
      (k j : ℕ) (v : V) (m : Map V)
      → lookup j (assign k v m) ≡ (if k == j then some v else lookup j m)
  unfolding lookup assign
  lookup-assign k j v [] = refl
  lookup-assign k j v ((i, w) ∷ m) = ground (arith, lookup-assign k j v m)

  pub lookup-emplace :
      (k j : ℕ) (v : V) (m : Map V)
      → lookup k m ≡ none
      → lookup j (emplace k v m) ≡ (if k == j then some v else lookup j m)
  unfolding lookup emplace
  lookup-emplace k j v [] h = refl
  lookup-emplace k j v ((i, w) ∷ m) h = ground (arith, lookup-emplace k j v m)

  pub length-emplace :
      (k : ℕ) (v : V) (m : Map V) → lookup k m ≡ none → length (emplace k v m) ≡ length m + 1
  unfolding lookup emplace
  length-emplace k v [] h = omega arith
  length-emplace k v ((i, w) ∷ m) h = ground (arith, length-emplace k v m)

  pub length-assign :
      (k : ℕ) (v w : V) (m : Map V) → lookup k m ≡ some w → length (assign k v m) ≡ length m
  unfolding lookup assign
  length-assign k v w [] h = absurd (ground arith)
  length-assign k v w ((i, u) ∷ m) h = ground (arith, length-assign k v w m)

  abbrev pub keys : Map V → List ℕ
  keys [] = []
  keys ((k, v) ∷ m) = k ∷ keys m

  pub elem-keys-assign :
      (k j : ℕ) (v : V) (m : Map V) → elem j (keys (assign k v m)) ≡ (k == j || elem j (keys m))
  unfolding assign elem
  elem-keys-assign k j v [] = refl
  elem-keys-assign k j v ((i, w) ∷ m) = ground (arith, elem-keys-assign k j v m)

  pub elem-keys-emplace :
      (k j : ℕ) (v : V) (m : Map V) → elem j (keys (emplace k v m)) ≡ (k == j || elem j (keys m))
  unfolding emplace elem
  elem-keys-emplace k j v [] = refl
  elem-keys-emplace k j v ((i, w) ∷ m) = ground (arith, elem-keys-emplace k j v m)

  pub assign-Distinct :
      (k : ℕ) (v : V) (m : Map V) → Distinct (keys m) → Distinct (keys (assign k v m))
  unfolding assign elem
  assign-Distinct k v [] d = (refl, tt)
  assign-Distinct k v ((i, w) ∷ m) d =
      ground (arith, assign-Distinct k v m d.1, elem-keys-assign k i v m)

  pub emplace-Distinct :
      (k : ℕ) (v : V) (m : Map V) → Distinct (keys m) → Distinct (keys (emplace k v m))
  unfolding emplace elem
  emplace-Distinct k v [] d = (refl, tt)
  emplace-Distinct k v ((i, w) ∷ m) d =
      ground (arith, emplace-Distinct k v m d.1, elem-keys-emplace k i v m)

  pub elem-keys : (k : ℕ) (m : Map V) → lookup k m ≢ none → elem k (keys m) ≡ true
  unfolding lookup elem
  elem-keys k [] h = absurd (h refl)
  elem-keys k ((i, w) ∷ m) h = ground (arith, elem-keys k m)
