-- ===== src/DynamicString/Stall.antt =====
-- When the loop of `printf` of src/dynamic_string.hpp does not end.
use lserver.Prelude.{ℕ, zero, suc, ◌+◌, ◌<◌, ◌≡◌, refl, true, List, arith, length}
use lserver.DynamicString.{DynamicString, size, out_of_fuel, moved, new_size, printf}
use lserver.DynamicString.Printf.{stalls, printf_retries}

module _ (allocate : ℕ → List ℕ) where
  -- A buffer that stalls on a text keeps asking for the size that it already has.
  new_size-stalls :
      (d : DynamicString) (n : ℕ) → stalls d n ≡ true → new_size allocate d n ≡ n + size d
  unfolding new_size
  new_size-stalls d n h = ground arith

  moved-stalls :
      (d : DynamicString) (n : ℕ)
      → stalls d n ≡ true
      → stalls (moved allocate d (n + size d)) n ≡ true
  unfolding moved
  moved-stalls d n h = ground arith

  -- In a buffer that stalls on a text that is not empty, no number of passes is enough for
  -- `printf` to return.
  pub printf-stalls :
      (fuel : ℕ) (d : DynamicString) (output : List ℕ)
      → 0 < length output
      → stalls d (length output) ≡ true
      → printf allocate fuel d output ≡ out_of_fuel
  unfolding moved
  printf-stalls zero d output pos h = unfold printf in refl
  printf-stalls (suc fuel) d output pos h =
      rw
        (printf_retries allocate fuel d output (ground arith)
          (omega (arith, new_size-stalls d (length output) h)))
        (rw (new_size-stalls d (length output) h) (
          printf-stalls fuel (moved allocate d (length output + size d)) output pos
            (moved-stalls d (length output) h)))
