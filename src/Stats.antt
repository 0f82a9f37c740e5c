-- ===== src/Stats.antt =====
-- src/stats.hpp: the counters of sessions, and the rows that show a sample of a server. A time is
-- its microseconds. The stream takes a text in a field of a width, with spaces before it.
pub mod Rows
use lserver.Prelude.{
  ℕ, zero, suc, ◌+◌, ◌-◌, ◌^◌, ◌%◌, Bool, true, false, not, ◌&&◌, List, [], ◌∷◌, ◌++◌, ltb, ◌==◌,
  if◌then◌else◌, add_word, length, codes, decimal, to_size_t,
}

-- The counters of a session, and their sum over sessions.
pub record SessionStats : Type 0 where
  pub transactions_cnt_delta : ℕ
  pub bytes_received_delta : ℕ
  pub bytes_sent_delta : ℕ

abbrev pub clear : SessionStats
clear = record { transactions_cnt_delta = 0; bytes_received_delta = 0; bytes_sent_delta = 0 }

pub record LsStats : Type 0 where
  pub accepted_cnt : ℕ
  pub num_items_total : ℕ
  pub num_items_in_flight : ℕ
  pub session_stats : SessionStats
  pub time : ℕ

pub record Field : Type 0 where
  pub width : ℕ
  pub name : List ℕ
  pub value : ℕ

-- The `int` that all samples share, as its 32 bits; it starts at -1.
abbrev pub first_row : ℕ
first_row = 2 ^ 32 - 1

-- Whether the row is a first one, with the next value of the counter.
unfoldable pub row_number : (row r : ℕ) → ℕ × Bool
row_number row r =
    let next = if to_size_t row == r - 1 then 0 else (row + 1) % 2 ^ 32 in (next, next == 0)

unfoldable pub generate_rec : LsStats → List Field
generate_rec s =
    record { width = 16; name = codes "t"; value = s.time }
    ∷ record { width = 10; name = codes "Accepted"; value = s.accepted_cnt }
    ∷ record { width = 10; name = codes "Total"; value = s.num_items_total }
    ∷ record { width = 11; name = codes "In flight"; value = s.num_items_in_flight }
    ∷ record { width = 10; name = codes "Trans"; value = s.session_stats.transactions_cnt_delta }
    ∷ record { width = 19; name = codes "Received"; value = s.session_stats.bytes_received_delta }
    ∷ record { width = 15; name = codes "Sent"; value = s.session_stats.bytes_sent_delta }
    ∷ []

abbrev pub spaces : ℕ → List ℕ
spaces zero = []
spaces (suc n) = 32 ∷ spaces n

-- `stream << setw(width) << text`
abbrev pub setw : ℕ → List ℕ → List ℕ
setw width text = spaces (width - length text) ++ text

unfoldable pub header_row : List Field → List ℕ
header_row [] = []
header_row (f ∷ fs) = setw f.width f.name ++ header_row fs

unfoldable pub value_row : List Field → List ℕ
value_row [] = []
value_row (f ∷ fs) = setw f.width (decimal f.value) ++ value_row fs

-- What is written, with the next value of the row counter; the counter stays if the interval is 0.
unfoldable pub print_rec : LsStats → (row header_interval : ℕ) → ℕ × List ℕ
print_rec s row header_interval =
    let rec = generate_rec s in
    let values = value_row rec ++ 10 ∷ [] in
    let header = 10 ∷ header_row rec ++ 10 ∷ [] in
    let (next, first) = row_number row header_interval in
    if header_interval == 0
    then (row, values)
    else (next, if first then header ++ values else values)
