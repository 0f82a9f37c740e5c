-- ===== src/Stats/Rows.antt =====
-- The rows of src/stats.hpp: when a header is printed, and how wide they are.
use native.Mathlib.Nat.{suc-mod, mod-eq_of_lt, mod_self, zero-mod, mod-lt}
use lserver.Prelude.{
  pow10, length-decimal, ℕ, zero, suc, ◌+◌, ◌-◌, ◌^◌, ◌%◌, ◌≤◌, ◌<◌, ◌≡◌, refl, ap, ◌∙◌, sym, Bool,
  List, [], ◌∷◌, ◌++◌, ◌==◌, if◌then◌else◌, if_elim, arith, length, length-append, decimal,
}
use lserver.Stats.{
  LsStats, Field, first_row, row_number, generate_rec, spaces, setw, header_row, value_row,
  print_rec,
}

-- The counter after that many calls.
unfoldable pub row_after : ℕ → ℕ → ℕ
row_after r zero = first_row
row_after r (suc k) = (row_number (row_after r k) r).0

row_number-next :
    (row r : ℕ)
    → row < r
    → r < 2 ^ 31
    → (row_number row r).0 ≡ (if row + 1 == r then 0 else row + 1)
unfolding row_number
row_number-next row r lt small = ground arith

mod_next : (k r : ℕ) → 0 < r → suc k % r ≡ (if k % r + 1 == r then 0 else k % r + 1)
mod_next k r pos =
    suc-mod k r
    ∙ if_elim (λ n. suc (k % r) % r ≡ n) (k % r + 1 == r) 0 (k % r + 1)
        (λ e. let full : suc (k % r) ≡ r = ground (arith, e) in ap (λ n. n % r) full ∙ mod_self r)
        (λ e.
          let fits : suc (k % r) < r = ground (arith, e, mod-lt k pos) in
          mod-eq_of_lt fits ∙ omega arith)

row_after-suc : (r k : ℕ) → 0 < r → r < 2 ^ 31 → row_after r (suc k) ≡ k % r
unfolding row_after row_number
row_after-suc r zero pos small = ground (arith, zero-mod r)
row_after-suc r (suc k) pos small =
    let before = row_after-suc r k pos small in
    ap (λ row. (row_number row r).0) before
    ∙ row_number-next (k % r) r (mod-lt k pos) small
    ∙ sym (mod_next k r pos)

row_number-first : (row r : ℕ) → (row_number row r).1 ≡ ((row_number row r).0 == 0)
unfolding row_number
row_number-first row r = refl

pub row_number_lem :
    (r k : ℕ) → 0 < r → r < 2 ^ 31 → (row_number (row_after r k) r).1 ≡ (k % r == 0)
unfolding row_after
row_number_lem r k pos small =
    row_number-first (row_after r k) r ∙ ap (λ n. n == 0) (row_after-suc r k pos small)

-- The width of a row of fields.
abbrev widths : List Field → ℕ
widths [] = 0
widths (f ∷ fs) = f.width + widths fs

length-spaces : (n : ℕ) → length (spaces n) ≡ n
length-spaces zero = refl
length-spaces (suc n) = ap suc (length-spaces n)

length-setw : (w : ℕ) (text : List ℕ) → length text ≤ w → length (setw w text) ≡ w
length-setw w text h =
    omega (arith, length-append (spaces (w - length text)) text, length-spaces (w - length text))

-- The values of a sample that its fields have room for.
pub record Fits (s : LsStats) : Type 0 where
  pub time : s.time < pow10 16
  pub accepted_cnt : s.accepted_cnt < pow10 10
  pub num_items_total : s.num_items_total < pow10 10
  pub num_items_in_flight : s.num_items_in_flight < pow10 11
  pub transactions : s.session_stats.transactions_cnt_delta < pow10 10
  pub bytes_received : s.session_stats.bytes_received_delta < pow10 19
  pub bytes_sent : s.session_stats.bytes_sent_delta < pow10 15

-- Fields with names and values that fit.
abbrev FitFields : List Field → Type 0
FitFields [] = Unit
FitFields (f ∷ fs) = (length f.name ≤ f.width) × (length (decimal f.value) ≤ f.width) × FitFields fs

rows_width :
    (fs : List Field)
    → FitFields fs
    → (length (header_row fs) ≡ widths fs) × (length (value_row fs) ≡ widths fs)
unfolding header_row value_row
rows_width [] h = (refl, refl)
rows_width (f ∷ fs) (name, value, rest) =
    let (header, values) = rows_width fs rest in
    (
      omega (
        arith,
        length-setw f.width f.name name,
        header,
        length-append (setw f.width f.name) (header_row fs),
      ),
      omega (
        arith,
        length-setw f.width (decimal f.value) value,
        values,
        length-append (setw f.width (decimal f.value)) (value_row fs),
      ),
    )

generate_rec-FitFields : (s : LsStats) → Fits s → FitFields (generate_rec s)
unfolding generate_rec
generate_rec-FitFields s v = (
  omega arith,
  length-decimal 15 s.time v.time,
  (
    omega arith,
    length-decimal 9 s.accepted_cnt v.accepted_cnt,
    (
      omega arith,
      length-decimal 9 s.num_items_total v.num_items_total,
      (
        omega arith,
        length-decimal 10 s.num_items_in_flight v.num_items_in_flight,
        (
          omega arith,
          length-decimal 9 s.session_stats.transactions_cnt_delta v.transactions,
          (
            omega arith,
            length-decimal 18 s.session_stats.bytes_received_delta v.bytes_received,
            (omega arith, length-decimal 14 s.session_stats.bytes_sent_delta v.bytes_sent, tt),
          ),
        ),
      ),
    ),
  ),
)

pub print_rec_row :
    (s : LsStats) (row r : ℕ) (first : Bool)
    → 0 < r
    → (row_number row r).1 ≡ first
    → (print_rec s row r).1 ≡ (
        if first
        then 10 ∷ header_row (generate_rec s) ++ 10 ∷ [] ++ (value_row (generate_rec s) ++ 10 ∷ [])
        else value_row (generate_rec s) ++ 10 ∷ [])
unfolding print_rec
print_rec_row s row r first pos e =
    let values = value_row (generate_rec s) ++ 10 ∷ [] in
    let header = 10 ∷ header_row (generate_rec s) ++ 10 ∷ [] in
    if_elim (λ (p : ℕ × List ℕ). p.1 ≡ (if first then header ++ values else values)) (r == 0) _ _
      (λ none. absurd (ground (arith, none, pos)))
      (λ _. ap (λ b. if b then header ++ values else values) e)

pub print_rec_next :
    (s : LsStats) (r k : ℕ) → 0 < r → (print_rec s (row_after r k) r).0 ≡ row_after r (suc k)
unfolding print_rec row_after
print_rec_next s r k pos = ground arith

-- For a sample whose values its fields have room for and an interval from 1 to 2 ^ 31 - 1, the call
-- number `k`, from 0, prints a header before the values exactly when `k` is a multiple of the
-- interval, and header and values are rows of 91 characters each.
pub print_rec_lem :
    (s : LsStats) (r k : ℕ)
    → Fits s
    → 0 < r
    → r < 2 ^ 31
    → let header = header_row (generate_rec s) in
      let values = value_row (generate_rec s) in
      ((print_rec s (row_after r k) r).1
        ≡ (if k % r == 0 then 10 ∷ header ++ 10 ∷ [] ++ (values ++ 10 ∷ []) else values ++ 10 ∷ []))
      × (length header ≡ 91)
      × (length values ≡ 91)
print_rec_lem s r k v pos small =
    let (header, values) = rows_width (generate_rec s) (generate_rec-FitFields s v) in
    (
      print_rec_row s (row_after r k) r (k % r == 0) pos (row_number_lem r k pos small),
      header ∙ unfold generate_rec in refl,
      values ∙ unfold generate_rec in refl,
    )
