-- ===== src/DynamicString.antt =====
-- src/dynamic_string.hpp: a growing byte buffer with a `printf`.
-- `written` holds the bytes between `buffer_start_` and `buffer_end_`, and `unused` those from
-- `buffer_end_` to the end of the allocation. What `allocate` finds in new memory is a parameter.
-- An `assert` that does not hold is `none`, or `aborted`; an allocation does not fail.
pub mod Printf
pub mod Stall
use lserver.Prelude.{
  ℕ, zero, suc, ◌+◌, ◌-◌, ◌*◌, ◌≡◌, Bool, true, false, Option, none, some, List, [], ◌∷◌, ◌++◌, leb,
  ltb, ◌==◌, if◌then◌else◌, length, take, drop,
}

pub record DynamicString : Type 0 where
  pub capacity : ℕ
  pub written : List ℕ
  pub unused : List ℕ

abbrev pub size : DynamicString → ℕ
size d = length d.written

-- The two parts of the buffer fill the allocation.
abbrev pub IsValid : DynamicString → Type 0
IsValid d = length d.written + length d.unused ≡ d.capacity

-- `snprintf(dst, n, …)` where the format expands to `output`: at most `n - 1` bytes of it and a
-- terminator are written.
overwrite : List ℕ → List ℕ → List ℕ
overwrite [] dst = dst
overwrite (x ∷ xs) [] = []
overwrite (x ∷ xs) (y ∷ ys) = x ∷ overwrite xs ys

snprintf : List ℕ → ℕ → List ℕ → List ℕ
unfolding overwrite
snprintf dst zero output = dst
snprintf dst (suc n) output = overwrite (take n output ++ 0 ∷ []) dst

pub data Printed : Type 0 where
  done : DynamicString → Printed
  aborted : Printed
  out_of_fuel : Printed

unfoldable pub clear : DynamicString → DynamicString
clear d = record d { written = []; unused = d.written ++ d.unused }

-- Moves the end of the buffer; the bytes are whatever the memory held.
unfoldable pub fill : DynamicString → ℕ → Option DynamicString
fill d count =
    let memory = d.written ++ d.unused in
    if leb count d.capacity
    then some (record d { written = take count memory; unused = drop count memory })
    else none

module _ (allocate : ℕ → List ℕ) where
  unfoldable pub construct : ℕ → DynamicString
  construct capacity = record { capacity = capacity; written = []; unused = allocate capacity }

  -- The bytes written so far, copied into a new allocation.
  unfoldable pub moved : DynamicString → ℕ → DynamicString
  moved d sz = record { capacity = sz; written = d.written; unused = drop (size d) (allocate sz) }

  unfoldable pub resize : DynamicString → ℕ → Option DynamicString
  resize d sz = if ltb (size d) sz then some (moved d sz) else none

  -- The capacity that a pass of `printf` asks for when the text did not fit.
  unfoldable pub new_size : DynamicString → ℕ → ℕ
  new_size d nchars =
      if ltb (nchars + size d) (d.capacity * 2)
      then (if leb d.capacity 512 then d.capacity * 2 else nchars + size d)
      else nchars + size d

  -- The text, once `snprintf` has had room for it: `buffer_end_ += nchars`.
  accept : DynamicString → ℕ → List ℕ → DynamicString
  accept d nchars memory = record d {
    written = d.written ++ take nchars memory;
    unused = drop nchars memory;
  }

  -- The loop `retry: … goto retry`, a pass for each unit of fuel.
  unfoldable pub printf : ℕ → DynamicString → List ℕ → Printed
  unfolding snprintf accept resize new_size
  printf zero d output = out_of_fuel
  printf (suc fuel) d output =
      let nchars = length output in
      let memory = snprintf d.unused (d.capacity - size d) output in
      elim (leb (d.capacity - size d) nchars) [
        | true ↦ elim (resize (record d { unused = memory }) (new_size d nchars)) [
          | none ↦ aborted
          | some d' ↦ printf fuel d' output
        ]
        | false ↦ done (accept d nchars memory)
      ]
