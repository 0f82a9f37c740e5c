-- ===== src/Program/ReadBack.antt =====
-- A stream as a client writes it, read by `try_parse` of src/program.hpp.
use mathlib.Core.List.{append-nil, append_assoc}
use lserver.Prelude.{
  pow10, ℕ, zero, suc, ◌+◌, ◌/◌, ◌%◌, ◌^◌, ◌≤◌, ◌<◌, ◌≡◌, refl, sym, ap, ◌∙◌, true, Option, none,
  some, List, [], ◌∷◌, ◌++◌, arith, ltb, if_elim, length, length-append, take, drop,
  take-append_length, All, digits, decimal, digits_pos,
}
use lserver.Program.{
  Document, is_space, is_digit, skip_spaces, read_digits, in_range, signed, stoul, find_newline,
  construct, finish, try_parse,
}
use lserver.Program.Parse.{HasHeader, try_parse_whole}

abbrev IsDigit : ℕ → Type 0
IsDigit c = (48 ≤ c) × (c ≤ 57)

All-append : (xs ys : List ℕ) → All IsDigit xs → All IsDigit ys → All IsDigit (xs ++ ys)
All-append [] ys h k = k
All-append (x ∷ xs) ys h k = (h.0, All-append xs ys h.1 k)

digits-IsDigit : (fuel n : ℕ) → All IsDigit (digits fuel n)
unfolding digits
digits-IsDigit zero n = tt
digits-IsDigit (suc fuel) n =
    if_elim (All IsDigit) (ltb n 10) ((48 + n) ∷ []) (digits fuel (n / 10) ++ (48 + n % 10) ∷ [])
      (λ small. ((omega arith, ground arith), tt))
      (λ _.
        All-append (digits fuel (n / 10)) ((48 + n % 10) ∷ []) (digits-IsDigit fuel (n / 10))
          ((omega arith, omega arith), tt))

-- Reading the last digit of a number after those before it gives the number.
read_last :
    (n : ℕ) (rest : List ℕ)
    → read_digits ((48 + n % 10) ∷ rest) (some (n / 10)) ≡ read_digits rest (some n)
unfolding read_digits is_digit
read_last n rest = ground arith

read_first :
    (n : ℕ) (rest : List ℕ)
    → ltb n 10 ≡ true
    → read_digits ((48 + n) ∷ rest) none ≡ read_digits rest (some n)
unfolding read_digits is_digit
read_first n rest h = ground arith

read_digits-digits :
    (fuel n : ℕ) (rest : List ℕ)
    → n < pow10 (suc fuel)
    → read_digits (digits (suc fuel) n ++ rest) none ≡ read_digits rest (some n)
unfolding digits
read_digits-digits zero n rest h =
    if_elim (λ xs. read_digits (xs ++ rest) none ≡ read_digits rest (some n)) (ltb n 10)
      ((48 + n) ∷ []) ((48 + n % 10) ∷ []) (read_first n rest) (λ large. absurd (ground arith))
read_digits-digits (suc fuel) n rest h =
    if_elim (λ xs. read_digits (xs ++ rest) none ≡ read_digits rest (some n)) (ltb n 10)
      ((48 + n) ∷ []) (digits (suc fuel) (n / 10) ++ (48 + n % 10) ∷ []) (read_first n rest)
      (λ _.
        ap (λ xs. read_digits xs none)
          (append_assoc (digits (suc fuel) (n / 10)) ((48 + n % 10) ∷ []) rest)
        ∙ read_digits-digits fuel (n / 10) ((48 + n % 10) ∷ rest) (omega arith)
        ∙ read_last n rest)

-- Digits are neither spaces nor signs.
stoul-IsDigit :
    (xs : List ℕ) → All IsDigit xs → 0 < length xs → stoul xs ≡ in_range (read_digits xs none)
unfolding stoul skip_spaces is_space signed
stoul-IsDigit [] h pos = absurd (omega arith)
stoul-IsDigit (c ∷ cs) h pos = ground (arith, h.0)

in_range_small : (n : ℕ) → n < 2 ^ 64 → in_range (some n) ≡ some n
unfolding in_range
in_range_small n h = ground arith

stoul-digits :
    (fuel n : ℕ) → n < pow10 (suc fuel) → n < 2 ^ 64 → stoul (digits (suc fuel) n) ≡ some n
unfolding read_digits
stoul-digits fuel n h small =
    let xs = digits (suc fuel) n in
    stoul-IsDigit xs (digits-IsDigit (suc fuel) n) (digits_pos fuel n)
    ∙ ap (λ ys. in_range (read_digits ys none)) (sym (append-nil xs))
    ∙ ap in_range (read_digits-digits fuel n [] h)
    ∙ in_range_small n small

stoul-decimal : (n : ℕ) → n < 2 ^ 64 → stoul (decimal n) ≡ some n
unfolding decimal
stoul-decimal n h = stoul-digits 19 n (omega arith) h

decimal-IsDigit : (n : ℕ) → All IsDigit (decimal n)
unfolding decimal
decimal-IsDigit n = digits-IsDigit 20 n

find_newline-digits :
    (xs ys : List ℕ) → All IsDigit xs → find_newline (xs ++ 10 ∷ ys) ≡ some (length xs)
unfolding find_newline
find_newline-digits [] ys h = refl
find_newline-digits (x ∷ xs) ys h = ground (arith, h.0, find_newline-digits xs ys h.1)

drop-append_suc : (xs ys : List ℕ) → drop (suc (length xs)) (xs ++ 10 ∷ ys) ≡ ys
drop-append_suc [] ys = refl
drop-append_suc (x ∷ xs) ys = drop-append_suc xs ys

drop-append_line : (xs ys : List ℕ) → drop (length xs + 1) (xs ++ 10 ∷ ys) ≡ ys
drop-append_line xs ys =
    let e : length xs + 1 ≡ suc (length xs) = omega arith in
    ap (λ n. drop n (xs ++ 10 ∷ ys)) e ∙ drop-append_suc xs ys

-- The length in decimal, a newline, and the program.
abbrev pub encode : List ℕ → List ℕ
encode text = decimal (length text) ++ 10 ∷ text

encode-HasHeader :
    (text more : List ℕ)
    → length text < 2 ^ 64
    → HasHeader (encode text ++ more) (length (decimal (length text))) (length text)
encode-HasHeader text more h =
    let xs = decimal (length text) in
    let e = append_assoc xs (10 ∷ text) more in
    record {
      newline =
          ap find_newline e ∙ find_newline-digits xs (text ++ more) (decimal-IsDigit (length text));
      number =
          ap (λ ys. stoul (take (length xs) ys)) e
          ∙ ap stoul (take-append_length xs (10 ∷ (text ++ more)))
          ∙ stoul-decimal (length text) h;
    }

module _ (parse_json : List ℕ → Option Document) where
  -- A stream that starts with the length of a program in decimal, a newline, and the program,
  -- which is not empty and shorter than 2 ^ 64, is read back by `try_parse`: whatever follows in
  -- the stream and in memory, the program is built from just its own text, and what is consumed
  -- is just the length of the three.
  pub try_parse-encode :
      (text more beyond : List ℕ)
      → 0 < length text
      → length text < 2 ^ 64
      → try_parse parse_json (encode text ++ more) beyond
        ≡ finish parse_json (construct parse_json text) (length (encode text))
  try_parse-encode text more beyond pos h =
      let xs = decimal (length text) in
      let e = append_assoc xs (10 ∷ text) more in
      (try_parse_whole parse_json (encode text ++ more) beyond (length xs) (length text)
        (encode-HasHeader text more h) pos
        (omega (arith, length-append (encode text) more, length-append xs (10 ∷ text)))).0
      ∙ ap
          (λ ys.
            finish parse_json (construct parse_json (take (length text) ys))
              (length xs + 1 + length text))
          (ap (drop (length xs + 1)) e ∙ drop-append_line xs (text ++ more))
      ∙ ap (λ ys. finish parse_json (construct parse_json ys) (length xs + 1 + length text))
          (take-append_length text more)
      ∙ ap (finish parse_json (construct parse_json text))
          (omega (arith, length-append xs (10 ∷ text)))
