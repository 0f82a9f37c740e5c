-- ===== src/HttpResponse/Text.antt =====
-- The text that HttpResponseHeader::generate_header of src/http_header.hpp prints.
use Prim.Native.String.{String}
use mathlib.Core.List.{append_assoc}
use lserver.Prelude.{
  ℕ, ◌+◌, ◌^◌, ◌≤◌, ◌<◌, ◌≡◌, refl, ap, ◌∙◌, Bool, true, some, List, [], ◌∷◌, ◌++◌, ◌&&◌, arith,
  leb, if◌then◌else◌, if_elim, length, length-append, Map, lookup, codes, decimal, signed_decimal,
  signed_decimal_bounds,
}
use lserver.DynamicString.{DynamicString, Printed, done, IsValid, clear}
use lserver.DynamicString.Printf.{printf_returns}
use lserver.HttpResponse.{
  HttpResponseHeader, status_code_reason, reason, append, line_break, status_line,
  content_length_line, connection_line, generate_header, prepare, stored,
}

-- A header as HTTP has it: each line ends in CRLF, and an empty line is the last.
abbrev end_lines : List (List ℕ) → List ℕ
end_lines [] = 13 ∷ 10 ∷ []
end_lines (l ∷ ls) = l ++ 13 ∷ 10 ∷ [] ++ end_lines ls

abbrev status_text : List ℕ → List ℕ → List ℕ
status_text code reason_str = codes "HTTP/1.1 " ++ code ++ codes " " ++ reason_str

abbrev content_length_text : List ℕ → List ℕ
content_length_text length = codes "Content-Length: " ++ length

abbrev connection_text : Bool → List ℕ
connection_text keep_alive =
    codes "Connection: " ++ (if keep_alive then codes "Keep-Alive" else codes "Close")

abbrev pub response_text : List ℕ → List ℕ → List ℕ → Bool → List ℕ
response_text code reason_str length keep_alive =
    end_lines
      (status_text code reason_str ∷ content_length_text length ∷ connection_text keep_alive ∷ [])

end_lines_lem :
    (a b c : List ℕ)
    → a ++ 13 ∷ 10 ∷ [] ++ b ++ 13 ∷ 10 ∷ [] ++ c ++ 13 ∷ 10 ∷ [] ++ 13 ∷ 10 ∷ []
      ≡ end_lines (a ∷ b ∷ c ∷ [])
end_lines_lem a b c = simp append_assoc

-- A buffer has been printed, and it is a valid one with just this text, of `n` bytes at most.
abbrev Holds : ℕ → List ℕ → Printed → Type 0
Holds n text r =
    (d : DynamicString) × (r ≡ done d) × (d.written ≡ text) × IsValid d × (length text ≤ n)

unfoldable all_short : Map String → Bool
all_short [] = true
all_short ((k, text) ∷ m) = leb (length (codes text)) 31 && all_short m

length-reason : (m : Map String) (code : ℕ) → all_short m ≡ true → length (reason m code) ≤ 31
unfolding reason lookup all_short
length-reason [] code h = omega arith
length-reason ((k, text) ∷ m) code h = ground (arith, h, length-reason m code)

signed_decimal_small : (n : ℕ) → n < 2 ^ 31 → signed_decimal n ≡ decimal n
unfolding signed_decimal
signed_decimal_small n h = ground arith

status-length :
    (code : ℕ) (text : List ℕ)
    → length text ≤ 31
    → length (codes "HTTP/1.1 " ++ signed_decimal code ++ codes " " ++ text) ≤ 62
status-length code text h =
    let b = signed_decimal_bounds code in
    omega (
      arith,
      length-append (codes "HTTP/1.1 " ++ signed_decimal code ++ codes " ") text,
      length-append (codes "HTTP/1.1 " ++ signed_decimal code) (codes " "),
      length-append (codes "HTTP/1.1 ") (signed_decimal code),
    )

module _ (allocate : ℕ → List ℕ) (allocate_size : (n : ℕ) → length (allocate n) ≡ n) where
  -- Short texts never stall.
  append-Holds :
      (n k : ℕ) (text more : List ℕ) (r : Printed)
      → Holds n text r
      → 0 < length more
      → length more ≤ k
      → n + k ≤ 512
      → Holds (n + k) (text ++ more) (append allocate 3 r more)
  unfolding append
  append-Holds n k text more r (d, e, w, v, b) pos short room = rw e (
      let l : length d.written ≡ length text = ap length w in
      let (d', e', w', v') = printf_returns allocate allocate_size d more v pos (ground arith) in
      (d', e', w' ∙ ap (λ t. t ++ more) w, v', omega (arith, length-append text more)))

  line_break-Holds :
      (n : ℕ) (text : List ℕ) (r : Printed)
      → Holds n text r
      → n + 2 ≤ 512
      → Holds (n + 2) (text ++ 13 ∷ 10 ∷ []) (line_break allocate 3 r)
  unfolding line_break
  line_break-Holds n text r h room =
      append-Holds n 2 text (13 ∷ 10 ∷ []) r h (omega arith) (omega arith) room

  generate_header_lem :
      (h : HttpResponseHeader)
      → IsValid h.buffer
      → (d : DynamicString) × (generate_header allocate 3 h ≡ done d)
        × (d.written
            ≡ response_text
                (signed_decimal h.code)
                (reason status_code_reason h.code)
                (signed_decimal h.content_length)
                h.keep_alive)
        × IsValid d
  unfolding generate_header status_line content_length_line connection_line clear all_short
  generate_header_lem h v =
      let b = signed_decimal_bounds h.content_length in
      let start : Holds 0 [] (done (clear h.buffer)) = (
        clear h.buffer,
        refl,
        refl,
        omega (arith, length-append h.buffer.written h.buffer.unused),
        omega arith,
      ) in
      let status =
        append-Holds 0 62 []
          (status_text (signed_decimal h.code) (reason status_code_reason h.code)) _ start
          (omega arith) (status-length h.code _ (length-reason status_code_reason h.code refl))
          (omega arith) in
      let status' = line_break-Holds 62 _ _ status (omega arith) in
      let content =
        append-Holds 64 40 _ (content_length_text (signed_decimal h.content_length)) _ status'
          (omega arith) (omega arith) (omega arith) in
      let content' = line_break-Holds 104 _ _ content (omega arith) in
      let connection =
        append-Holds 106 30 _ (connection_text h.keep_alive) _ content' (omega arith)
          (if_elim (λ (t : List ℕ). length (codes "Connection: " ++ t) ≤ 30) h.keep_alive _ _
            (λ _. omega arith) (λ _. omega arith))
          (omega arith) in
      let connection' = line_break-Holds 136 _ _ connection (omega arith) in
      let (d, e, w, v', _) = line_break-Holds 138 _ _ connection' (omega arith) in
      (
        d,
        e,
        w
            ∙ end_lines_lem (status_text (signed_decimal h.code) (reason status_code_reason h.code))
                (content_length_text (signed_decimal h.content_length))
                (connection_text h.keep_alive),
        v',
      )

  -- When the buffer is valid, memory is allocated in the size asked for, each `printf` has three
  -- passes, and the code and the length are below 2 ^ 31, `prepare` returns, with its arguments
  -- in the fields, and its valid buffer then holds exactly the header as HTTP writes it: the
  -- lines, each ended by CRLF, with both numbers in decimal, then an empty line; whatever the
  -- buffer held before.
  pub prepare_lem :
      (h : HttpResponseHeader) (code content_length : ℕ) (keep_alive : Bool)
      → IsValid h.buffer
      → code < 2 ^ 31
      → content_length < 2 ^ 31
      → (d : DynamicString) × (prepare allocate 3 h code content_length keep_alive
          ≡ some (record h {
            code = code;
            content_length = content_length;
            keep_alive = keep_alive;
            buffer = d;
          }))
        × (d.written
            ≡ response_text
                (decimal code)
                (reason status_code_reason code)
                (decimal content_length)
                keep_alive)
        × IsValid d
  unfolding prepare stored
  prepare_lem h code content_length keep_alive v small small' =
      let h' = record h { code = code; content_length = content_length; keep_alive = keep_alive } in
      let (d, e, w, v') = generate_header_lem h' v in
      (
        d,
        ap (stored allocate 3 h') e,
        w
            ∙ ap
                (λ c.
                  response_text c (reason status_code_reason code) (signed_decimal content_length)
                    keep_alive)
                (signed_decimal_small code small)
            ∙ ap (λ l. response_text (decimal code) (reason status_code_reason code) l keep_alive)
                (signed_decimal_small content_length small'),
        v',
      )
