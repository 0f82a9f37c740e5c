-- ===== src/Prelude/Lists.antt =====
-- Lists measured and indexed by the native numbers, and lists of distinct numbers.
use Prim.Native.Nat.{ℕ, zero, suc, ◌+◌, ◌-◌, ◌≤◌, min}
use mathlib.Core.Path.{◌≡◌, refl, ap}
use mathlib.Core.Logic.{◌≢◌}
use mathlib.Core.Bool.{Bool, true, false, ◌&&◌, ◌||◌, not}
use mathlib.Core.List.{List, [], ◌∷◌, ◌++◌}
use mathlib.Core.Option.{Option, none, some}
use native.Mathlib.Omega.{arith}
use lserver.Prelude.Tests.{◌==◌, if◌then◌else◌}

module _ {ℓ} {A : Type ℓ} where
  abbrev pub length : List A → ℕ
  length [] = 0
  length (x ∷ xs) = suc (length xs)

  abbrev pub get_elem? : List A → ℕ → Option A
  get_elem? [] i = none
  get_elem? (x ∷ xs) zero = some x
  get_elem? (x ∷ xs) (suc i) = get_elem? xs i

  -- A write out of bounds changes nothing.
  abbrev pub set : List A → ℕ → A → List A
  set [] i v = []
  set (x ∷ xs) zero v = v ∷ xs
  set (x ∷ xs) (suc i) v = x ∷ set xs i v

  abbrev pub take : ℕ → List A → List A
  take zero xs = []
  take (suc n) [] = []
  take (suc n) (x ∷ xs) = x ∷ take n xs

  abbrev pub drop : ℕ → List A → List A
  drop zero xs = xs
  drop (suc n) [] = []
  drop (suc n) (x ∷ xs) = drop n xs

  abbrev pub is_empty : List A → Bool
  is_empty [] = true
  is_empty (x ∷ xs) = false

  pub length-append : (xs ys : List A) → length (xs ++ ys) ≡ length xs + length ys
  length-append [] ys = omega arith
  length-append (x ∷ xs) ys = omega (arith, length-append xs ys)

  pub length-take : (n : ℕ) (xs : List A) → length (take n xs) ≡ min n (length xs)
  length-take zero xs = omega arith
  length-take (suc n) [] = omega arith
  length-take (suc n) (x ∷ xs) = omega (arith, length-take n xs)

  pub length-drop : (n : ℕ) (xs : List A) → length (drop n xs) ≡ length xs - n
  length-drop zero xs = omega arith
  length-drop (suc n) [] = omega arith
  length-drop (suc n) (x ∷ xs) = omega (arith, length-drop n xs)

  pub length-set : (xs : List A) (i : ℕ) (v : A) → length (set xs i v) ≡ length xs
  length-set [] i v = refl
  length-set (x ∷ xs) zero v = refl
  length-set (x ∷ xs) (suc i) v = ap suc (length-set xs i v)

  pub set_same : (xs : List A) (i : ℕ) (v : A) → get_elem? xs i ≡ some v → set xs i v ≡ xs
  set_same [] i v e = refl
  set_same (x ∷ xs) zero v e = ground (arith, e)
  set_same (x ∷ xs) (suc i) v e = ap (λ ys. x ∷ ys) (set_same xs i v e)

  pub get_elem?-set_self :
      (xs : List A) (i : ℕ) (v w : A) → get_elem? xs i ≡ some w → get_elem? (set xs i v) i ≡ some v
  get_elem?-set_self [] i v w e = absurd (cc e)
  get_elem?-set_self (x ∷ xs) zero v w e = refl
  get_elem?-set_self (x ∷ xs) (suc i) v w e = get_elem?-set_self xs i v w e

  pub get_elem?-set_ne :
      (xs : List A) (i j : ℕ) (v : A) → i ≢ j → get_elem? (set xs i v) j ≡ get_elem? xs j
  get_elem?-set_ne [] i j v h = refl
  get_elem?-set_ne (x ∷ xs) zero zero v h = absurd (h refl)
  get_elem?-set_ne (x ∷ xs) zero (suc j) v h = refl
  get_elem?-set_ne (x ∷ xs) (suc i) zero v h = refl
  get_elem?-set_ne (x ∷ xs) (suc i) (suc j) v h = get_elem?-set_ne xs i j v (λ e. h (ap suc e))

  pub take-append_length : (xs ys : List A) → take (length xs) (xs ++ ys) ≡ xs
  take-append_length [] ys = refl
  take-append_length (x ∷ xs) ys = ap (λ zs. x ∷ zs) (take-append_length xs ys)

  pub drop-append_length : (xs ys : List A) → drop (length xs) (xs ++ ys) ≡ ys
  drop-append_length [] ys = refl
  drop-append_length (x ∷ xs) ys = drop-append_length xs ys

  pub take_all : (n : ℕ) (xs : List A) → length xs ≤ n → take n xs ≡ xs
  take_all zero [] h = refl
  take_all zero (x ∷ xs) h = absurd (omega arith)
  take_all (suc n) [] h = refl
  take_all (suc n) (x ∷ xs) h = ap (λ zs. x ∷ zs) (take_all n xs (omega arith))

module _ {ℓ} {A : Type ℓ} where
  pub take-drop-append_within :
      (n k : ℕ) (xs ys : List A)
      → k + n ≤ length xs
      → take n (drop k (xs ++ ys)) ≡ take n (drop k xs)
  take-drop-append_within zero k xs ys h = refl
  take-drop-append_within (suc n) zero [] ys h = absurd (omega arith)
  take-drop-append_within (suc n) zero (x ∷ xs) ys h =
      ap (λ l. x ∷ l) (take-drop-append_within n zero xs ys (omega arith))
  take-drop-append_within (suc n) (suc k) [] ys h = absurd (omega arith)
  take-drop-append_within (suc n) (suc k) (x ∷ xs) ys h =
      take-drop-append_within (suc n) k xs ys (omega arith)

  pub take-drop-append_beyond :
      (n k m : ℕ) (xs ys : List A)
      → k ≤ length xs
      → k + n ≡ length xs + m
      → take n (drop k (xs ++ ys)) ≡ drop k xs ++ take m ys
  take-drop-append_beyond n zero m [] ys h e = ap (λ j. take j ys) (omega arith)
  take-drop-append_beyond zero zero m (x ∷ xs) ys h e = absurd (omega arith)
  take-drop-append_beyond (suc n) zero m (x ∷ xs) ys h e =
      ap (λ l. x ∷ l) (take-drop-append_beyond n zero m xs ys (omega arith) (omega arith))
  take-drop-append_beyond n (suc k) m [] ys h e = absurd (omega arith)
  take-drop-append_beyond n (suc k) m (x ∷ xs) ys h e =
      take-drop-append_beyond n k m xs ys (omega arith) (omega arith)

-- A predicate of every element, by recursion.
abbrev pub All {ℓ κ} : {A : Type ℓ} → (A → Type κ) → List A → Type κ
All P [] = Unit
All P (x ∷ xs) = P x × All P xs

unfoldable pub elem : ℕ → List ℕ → Bool
elem x [] = false
elem x (y ∷ ys) = y == x || elem x ys

-- The list without the first occurrence of a number.
unfoldable pub erase : ℕ → List ℕ → List ℕ
erase x [] = []
erase x (y ∷ ys) = if y == x then ys else y ∷ erase x ys

abbrev pub Distinct : List ℕ → Type 0
Distinct [] = Unit {0}
Distinct (x ∷ xs) = (elem x xs ≡ false) × Distinct xs

pub elem-erase :
    (x y : ℕ) (ys : List ℕ) → Distinct ys → elem x (erase y ys) ≡ (elem x ys && not (y == x))
unfolding elem erase
elem-erase x y [] d = refl
elem-erase x y (z ∷ zs) d = ground (arith, elem-erase x y zs d.1)

pub erase-Distinct : (x : ℕ) (ys : List ℕ) → Distinct ys → Distinct (erase x ys)
unfolding erase
erase-Distinct x [] d = tt
erase-Distinct x (y ∷ ys) d = ground (arith, erase-Distinct x ys d.1, elem-erase y x ys d.1)

pub length-erase : (x : ℕ) (ys : List ℕ) → elem x ys ≡ true → length (erase x ys) + 1 ≡ length ys
unfolding elem erase
length-erase x [] h = absurd (ground arith)
length-erase x (y ∷ ys) h = ground (arith, length-erase x ys)
