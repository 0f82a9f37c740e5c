-- ===== src/Prelude/Text.antt =====
-- Texts as lists of bytes, and the decimal print of `printf` and of streams.
use Prim.Native.Char.{code}
use Prim.Native.Nat.{ℕ, zero, suc, ◌+◌, ◌-◌, ◌*◌, ◌/◌, ◌%◌, ◌^◌, ◌≤◌, ◌<◌}
use Prim.Native.String.{String}
use mathlib.Core.Path.{◌≡◌, refl}
use mathlib.Core.List.{List, [], ◌∷◌, ◌++◌}
use native.Mathlib.Omega.{arith}
use lserver.Prelude.Tests.{ltb, if◌then◌else◌, if_elim}
use lserver.Prelude.Lists.{length, length-append}

-- The bytes of a text of ASCII characters.
abbrev pub codes : String → List ℕ
codes String.[] = []
codes (String.◌∷◌ c s) = code c ∷ codes s

-- The last `fuel` digits at most, the most significant first.
unfoldable pub digits : (fuel n : ℕ) → List ℕ
digits zero n = []
digits (suc fuel) n =
    let rest = digits fuel (n / 10) in
    if ltb n 10 then (48 + n) ∷ [] else rest ++ (48 + n % 10) ∷ []

-- A 64-bit number has no more than 20 digits.
unfoldable pub decimal : ℕ → List ℕ
unfolding digits
decimal n = digits 20 n

-- `%d`, of which the ABI takes the low 32 bits as a signed number.
unfoldable pub signed_decimal : ℕ → List ℕ
unfolding decimal
signed_decimal n =
    let low = n % 2 ^ 32 in if ltb low (2 ^ 31) then decimal low else 45 ∷ decimal (2 ^ 32 - low)

pub length-digits : (fuel n : ℕ) → length (digits (suc fuel) n) ≤ suc fuel
unfolding digits
length-digits zero n =
    if_elim (λ (xs : List ℕ). length xs ≤ 1) (ltb n 10) ((48 + n) ∷ []) ((48 + n % 10) ∷ [])
      (λ _. omega arith) (λ _. omega arith)
length-digits (suc fuel) n =
    if_elim (λ (xs : List ℕ). length xs ≤ suc (suc fuel)) (ltb n 10) ((48 + n) ∷ [])
      (digits (suc fuel) (n / 10) ++ (48 + n % 10) ∷ []) (λ _. omega arith)
      (λ _. omega (
        arith,
        length-digits fuel (n / 10),
        length-append (digits (suc fuel) (n / 10)) ((48 + n % 10) ∷ []),
      ))

pub digits_pos : (fuel n : ℕ) → 0 < length (digits (suc fuel) n)
unfolding digits
digits_pos fuel n =
    if_elim (λ (xs : List ℕ). 0 < length xs) (ltb n 10) ((48 + n) ∷ [])
      (digits fuel (n / 10) ++ (48 + n % 10) ∷ []) (λ _. omega arith)
      (λ _. omega (arith, length-append (digits fuel (n / 10)) ((48 + n % 10) ∷ [])))

pub decimal_bounds : (n : ℕ) → (0 < length (decimal n)) × (length (decimal n) ≤ 20)
unfolding decimal
decimal_bounds n = (digits_pos 19 n, length-digits 19 n)

abbrev pub pow10 : ℕ → ℕ
pow10 zero = 1
pow10 (suc k) = 10 * pow10 k

digits-fit : (fuel k n : ℕ) → n < pow10 (suc k) → length (digits fuel n) ≤ suc k
unfolding digits
digits-fit zero k n h = omega arith
digits-fit (suc fuel) zero n h =
    if_elim (λ (xs : List ℕ). length xs ≤ 1) (ltb n 10) ((48 + n) ∷ [])
      (digits fuel (n / 10) ++ (48 + n % 10) ∷ []) (λ _. omega arith)
      (λ large. absurd (ground arith))
digits-fit (suc fuel) (suc k) n h =
    if_elim (λ (xs : List ℕ). length xs ≤ suc (suc k)) (ltb n 10) ((48 + n) ∷ [])
      (digits fuel (n / 10) ++ (48 + n % 10) ∷ []) (λ _. omega arith)
      (λ _. omega (
        arith,
        digits-fit fuel k (n / 10) (omega arith),
        length-append (digits fuel (n / 10)) ((48 + n % 10) ∷ []),
      ))

pub length-decimal : (k n : ℕ) → n < pow10 (suc k) → length (decimal n) ≤ suc k
unfolding decimal
length-decimal k n h = digits-fit 20 k n h

pub signed_decimal_bounds :
    (n : ℕ) → (0 < length (signed_decimal n)) × (length (signed_decimal n) ≤ 21)
unfolding signed_decimal
signed_decimal_bounds n =
    let low = decimal_bounds (n % 2 ^ 32) in
    let negative = decimal_bounds (2 ^ 32 - n % 2 ^ 32) in
    if_elim (λ (xs : List ℕ). (0 < length xs) × (length xs ≤ 21)) (ltb (n % 2 ^ 32) (2 ^ 31))
      (decimal (n % 2 ^ 32)) (45 ∷ decimal (2 ^ 32 - n % 2 ^ 32)) (λ _. omega arith)
      (λ _. omega arith)

signed_decimal_test : signed_decimal (2 ^ 32 - 12) ≡ codes "-12"
unfolding signed_decimal
signed_decimal_test = refl
