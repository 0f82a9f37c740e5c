-- ===== src/DynamicString/Printf.antt =====
-- What `printf` of src/dynamic_string.hpp writes, and that it returns.
use lserver.Prelude.{
  ℕ, zero, suc, ◌+◌, ◌-◌, ◌*◌, ◌≤◌, ◌<◌, ◌≡◌, refl, ap, false, Bool, ◌&&◌, ◌||◌, List, [], ◌∷◌,
  ◌++◌, arith, dec_lt, leb, ltb, length, take, drop, length-append, length-take, length-drop,
  take_all,
}
use lserver.DynamicString.{
  DynamicString, size, IsValid, overwrite, snprintf, Printed, done, moved, new_size, accept, printf,
}

overwrite_fits :
    (xs ys : List ℕ) → length xs ≤ length ys → overwrite xs ys ≡ xs ++ drop (length xs) ys
unfolding overwrite
overwrite_fits [] ys h = refl
overwrite_fits (x ∷ xs) [] h = absurd (omega arith)
overwrite_fits (x ∷ xs) (y ∷ ys) h = ap (λ zs. x ∷ zs) (overwrite_fits xs ys (omega arith))

take-append_left : (xs ys zs : List ℕ) → take (length xs) ((xs ++ ys) ++ zs) ≡ xs
take-append_left [] ys zs = refl
take-append_left (x ∷ xs) ys zs = ap (λ ws. x ∷ ws) (take-append_left xs ys zs)

length-overwrite : (xs ys : List ℕ) → length (overwrite xs ys) ≡ length ys
unfolding overwrite
length-overwrite [] ys = refl
length-overwrite (x ∷ xs) [] = refl
length-overwrite (x ∷ xs) (y ∷ ys) = ap suc (length-overwrite xs ys)

length-snprintf :
    (dst : List ℕ) (n : ℕ) (output : List ℕ) → length (snprintf dst n output) ≡ length dst
unfolding snprintf
length-snprintf dst zero output = refl
length-snprintf dst (suc n) output = length-overwrite _ dst

-- With room for the terminator `snprintf` writes the whole text.
take-snprintf :
    (dst : List ℕ) (n : ℕ) (output : List ℕ)
    → length output < n
    → n ≤ length dst
    → take (length output) (snprintf dst n output) ≡ output
unfolding snprintf
take-snprintf dst zero output h k = absurd (omega arith)
take-snprintf dst (suc n) output h k = rw (take_all n output (omega arith)) (
    rw (overwrite_fits (output ++ 0 ∷ []) dst (omega (arith, length-append output (0 ∷ []))))
      (take-append_left output (0 ∷ []) _))

-- No room, no growth beyond what the text needs, and that growth leaves no room either.
abbrev pub stalls : DynamicString → ℕ → Bool
stalls d n =
    leb (d.capacity - size d) n
    && (ltb 512 (n + size d) && (ltb 512 d.capacity || leb (d.capacity * 2) (n + size d)))

module _ (allocate : ℕ → List ℕ) where
  -- A pass that finds no room enlarges the buffer and tries again.
  pub printf_retries :
      (fuel : ℕ) (d : DynamicString) (output : List ℕ)
      → d.capacity - size d ≤ length output
      → size d < new_size allocate d (length output)
      → printf allocate (suc fuel) d output
        ≡ printf allocate fuel (moved allocate d (new_size allocate d (length output))) output
  unfolding printf moved
  printf_retries fuel d output h k = ground arith

-- The text has been appended, and the buffer is still valid.
abbrev pub Appends : DynamicString → List ℕ → Printed → Type 0
Appends d output r =
    (d' : DynamicString) × (r ≡ done d') × (d'.written ≡ d.written ++ output) × IsValid d'

module _ (allocate : ℕ → List ℕ) (allocate_size : (n : ℕ) → length (allocate n) ≡ n) where
  accept-IsValid :
      (d : DynamicString) (n : ℕ) (memory : List ℕ)
      → length memory ≡ length d.unused
      → n ≤ length memory
      → IsValid d
      → IsValid (accept allocate d n memory)
  unfolding accept
  accept-IsValid d n memory e h v =
      omega
        (arith, length-append d.written (take n memory), length-take n memory, length-drop n memory)

  pub printf_fits :
      (fuel : ℕ) (d : DynamicString) (output : List ℕ)
      → IsValid d
      → length output < d.capacity - size d
      → Appends d output (printf allocate (suc fuel) d output)
  unfolding printf
  printf_fits fuel d output v h = (
    accept allocate d (length output) memory,
    ground arith,
    ap (λ xs. d.written ++ xs)
        (take-snprintf d.unused (d.capacity - size d) output h (omega arith)),
    accept-IsValid d (length output) memory (length-snprintf d.unused _ output)
        (omega (arith, length-snprintf d.unused (d.capacity - size d) output)) v,
  )
    where
      memory : List ℕ
      memory = snprintf d.unused (d.capacity - size d) output

  moved-IsValid : (d : DynamicString) (sz : ℕ) → size d ≤ sz → IsValid (moved allocate d sz)
  unfolding moved
  moved-IsValid d sz h = omega (arith, length-drop (size d) (allocate sz), allocate_size sz)

  -- With the text or the buffer small, `new_size` finds room at the latest in the second pass.
  printf_small :
      (fuel : ℕ) (d : DynamicString) (output : List ℕ)
      → IsValid d
      → 0 < length output
      → d.capacity ≤ 512
      → length output + size d < d.capacity * 2
      → Appends d output (printf allocate (suc (suc fuel)) d output)
  unfolding moved
  printf_small fuel d output v pos small h = elim (dec_lt (length output) (d.capacity - size d)) [
    | yes room ↦ printf_fits (suc fuel) d output v room
    | no full ↦
        let e : new_size allocate d (length output) ≡ d.capacity * 2 =
          unfold new_size in ground arith in
        rw (printf_retries allocate (suc fuel) d output (omega arith) (omega arith)) (
          rw e (
            printf_fits fuel (moved allocate d (d.capacity * 2)) output
              (moved-IsValid d (d.capacity * 2) (omega arith)) (omega arith)))
  ]

  -- When memory is allocated in the size asked for and the state of the buffer and the length of
  -- the text, which is not empty, are not ones in which the buffer stalls, `printf` on a valid
  -- buffer ends within three passes, appends exactly the text, and leaves a valid buffer.
  pub printf_returns :
      (d : DynamicString) (output : List ℕ)
      → IsValid d
      → 0 < length output
      → stalls d (length output) ≡ false
      → Appends d output (printf allocate 3 d output)
  unfolding moved
  printf_returns d output v pos h = elim (dec_lt (length output) (d.capacity - size d)) [
    | yes room ↦ printf_fits 2 d output v room
    | no full ↦ elim (dec_lt (length output + size d) (d.capacity * 2)) [
      | yes doubles ↦ printf_small 1 d output v pos (ground arith) doubles
      | no exact ↦
          let e : new_size allocate d (length output) ≡ length output + size d =
            unfold new_size in ground arith in
          rw (printf_retries allocate 2 d output (omega arith) (omega arith)) (
            rw e (
              printf_small 0 (moved allocate d (length output + size d)) output
                (moved-IsValid d (length output + size d) (omega arith)) pos (ground arith)
                (omega arith)))
    ]
  ]
