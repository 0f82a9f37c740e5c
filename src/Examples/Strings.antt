-- ===== src/Examples/Strings.antt =====
-- Buffers of src/dynamic_string.hpp: one that grows once, one that never has enough room, and one
-- that takes the header of a response of src/http_header.hpp.
use lserver.Prelude.{
  ◌%◌, ◌==◌, ◌++◌, if◌then◌else◌, ap, true, false, some, decimal, length, ℕ, zero, suc, ◌≡◌, refl,
  List, [], ◌∷◌, arith,
}
use lserver.DynamicString.{DynamicString, IsValid, printf, out_of_fuel}
use lserver.Stats.{LsStats, header_row, value_row, generate_rec, print_rec}
use lserver.Stats.Rows.{row_after, print_rec_lem}
use lserver.HttpResponse.{HttpResponseHeader, prepare, status_code_reason, reason}
use lserver.HttpResponse.Text.{prepare_lem, response_text}
use lserver.DynamicString.Printf.{printf_returns, Appends}
use lserver.DynamicString.Stall.{printf-stalls}

abbrev zeros : ℕ → List ℕ
zeros zero = []
zeros (suc n) = 0 ∷ zeros n

length-zeros : (n : ℕ) → length (zeros n) ≡ n
length-zeros zero = refl
length-zeros (suc n) = ap suc (length-zeros n)

abbrev greeting : DynamicString
greeting = record { capacity = 4; written = 104 ∷ []; unused = 0 ∷ 0 ∷ 0 ∷ [] }

abbrev text : List ℕ
text = 105 ∷ 33 ∷ 33 ∷ []

abbrev wide : DynamicString
wide = record { capacity = 600; written = []; unused = zeros 600 }

printf_returns_example : Appends greeting text (printf zeros 3 greeting text)
printf_returns_example = printf_returns zeros length-zeros greeting text refl (omega arith) refl

printf-stalls_example : printf zeros 5 wide (zeros 600) ≡ out_of_fuel
printf-stalls_example = printf-stalls zeros 5 wide (zeros 600) (omega arith) refl

abbrev response_header : HttpResponseHeader
response_header = record {
  content_length = 0;
  code = 0;
  keep_alive = false;
  buffer = record { capacity = 64; written = 1 ∷ 2 ∷ []; unused = zeros 62 };
  sent = false;
}

prepare_lem_example :
    (d : DynamicString) × (prepare zeros 3 response_header 200 1024 true
      ≡ some (record response_header {
        code = 200;
        content_length = 1024;
        keep_alive = true;
        buffer = d;
      }))
    × (d.written ≡ response_text (decimal 200) (reason status_code_reason 200) (decimal 1024) true)
    × IsValid d
prepare_lem_example =
    prepare_lem zeros length-zeros response_header 200 1024 true refl (omega arith) (omega arith)

abbrev sample : LsStats
sample = record {
  accepted_cnt = 846;
  num_items_total = 846;
  num_items_in_flight = 12;
  session_stats = record {
    transactions_cnt_delta = 802364;
    bytes_received_delta = 61151984;
    bytes_sent_delta = 49726852;
  };
  time = 1630311562930478;
}

print_rec_lem_example :
    let header = header_row (generate_rec sample) in
    let values = value_row (generate_rec sample) in
    ((print_rec sample (row_after 20 40) 20).1
      ≡ (if 40 % 20 == 0 then 10 ∷ header ++ 10 ∷ [] ++ (values ++ 10 ∷ []) else values ++ 10 ∷ []))
    × (length header ≡ 91)
    × (length values ≡ 91)
print_rec_lem_example =
    print_rec_lem sample 20 40
      (record {
        time = omega arith;
        accepted_cnt = omega arith;
        num_items_total = omega arith;
        num_items_in_flight = omega arith;
        transactions = omega arith;
        bytes_received = omega arith;
        bytes_sent = omega arith;
      })
      (omega arith) (omega arith)
