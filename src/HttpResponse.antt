-- ===== src/HttpResponse.antt =====
-- The response header of src/http_header.hpp: HttpResponseHeader, which prints into a buffer of the
-- session. `code_` is an `int`, here its 32 bits; the formats are written out as the bytes that
-- they expand to. A `printf` that aborts, or does not return within the fuel, ends the method.
pub mod Text
use Prim.Native.String.{String}
use lserver.Prelude.{
  ℕ, Bool, true, false, Option, none, some, List, [], ◌∷◌, ◌++◌, if◌then◌else◌, Map, lookup, codes,
  signed_decimal,
}
use lserver.DynamicString.{DynamicString, Printed, done, aborted, out_of_fuel, clear, printf}

pub record HttpResponseHeader : Type 0 where
  pub content_length : ℕ
  pub code : ℕ
  pub keep_alive : Bool
  pub buffer : DynamicString
  pub sent : Bool

abbrev pub status_code_reason : Map String
status_code_reason =
    (100, "Continue")
    ∷ (101, "Switching Protocols")
    ∷ (200, "OK")
    ∷ (201, "Created")
    ∷ (202, "Accepted")
    ∷ (203, "Non-Authoritative Information")
    ∷ (204, "No Content")
    ∷ (205, "Reset Content")
    ∷ (206, "Partial Content")
    ∷ (300, "Multiple Choices")
    ∷ (301, "Moved Permanently")
    ∷ (302, "Found")
    ∷ (303, "See Other")
    ∷ (304, "Not Modified")
    ∷ (305, "Use Proxy")
    ∷ (307, "Temporary Redirect")
    ∷ (400, "Bad Request")
    ∷ (401, "Unauthorized")
    ∷ (402, "Payment Required")
    ∷ (403, "Forbidden")
    ∷ (404, "Not Found")
    ∷ (405, "Method Not Allowed")
    ∷ (406, "Not Acceptable")
    ∷ (407, "Proxy Authentication Required")
    ∷ (408, "Request Time-out")
    ∷ (409, "Conflict")
    ∷ (410, "Gone")
    ∷ (411, "Length Required")
    ∷ (412, "Precondition Failed")
    ∷ (413, "Request Entity Too Large")
    ∷ (414, "Request-URI Too Large")
    ∷ (415, "Unsupported Media Type")
    ∷ (416, "Requested range not satisfiable")
    ∷ (417, "Expectation Failed")
    ∷ (500, "Internal Server Error")
    ∷ (501, "Not Implemented")
    ∷ (502, "Bad Gateway")
    ∷ (503, "Service Unavailable")
    ∷ (504, "Gateway Time-out")
    ∷ (505, "HTTP Version not supported")
    ∷ []

-- `reason_str`, in the table `m`.
unfoldable pub reason : Map String → ℕ → List ℕ
reason m code = elim (lookup code m) [ none ↦ [] | some text ↦ codes text ]

unfoldable pub reset : HttpResponseHeader → HttpResponseHeader
reset h = record h { sent = false }

unfoldable pub set_sent : HttpResponseHeader → HttpResponseHeader
set_sent h = record h { sent = true }

unfoldable pub is_sent : HttpResponseHeader → Bool
is_sent h = h.sent

-- What an allocation finds in memory, and the passes that each `printf` may take.
module _ (allocate : ℕ → List ℕ) (fuel : ℕ) where
  unfoldable pub append : Printed → List ℕ → Printed
  append (done d) text = printf allocate fuel d text
  append aborted text = aborted
  append out_of_fuel text = out_of_fuel

  unfoldable pub line_break : Printed → Printed
  unfolding append
  line_break r = append r (13 ∷ 10 ∷ [])

  unfoldable pub status_line : HttpResponseHeader → Printed → Printed
  unfolding append reason
  status_line h r =
      append r (
        codes "HTTP/1.1 " ++ signed_decimal h.code ++ codes " " ++ reason status_code_reason h.code)

  -- `%d` for a `std::size_t`.
  unfoldable pub content_length_line : HttpResponseHeader → Printed → Printed
  unfolding append
  content_length_line h r = append r (codes "Content-Length: " ++ signed_decimal h.content_length)

  unfoldable pub connection_line : HttpResponseHeader → Printed → Printed
  unfolding append
  connection_line h r =
      append r
        (codes "Connection: " ++ (if h.keep_alive then codes "Keep-Alive" else codes "Close"))

  unfoldable pub generate_header : HttpResponseHeader → Printed
  unfolding line_break status_line content_length_line connection_line clear
  generate_header h =
      let status = line_break (status_line h (done (clear h.buffer))) in
      let content_length = line_break (content_length_line h status) in
      line_break (line_break (connection_line h content_length))

  unfoldable pub stored : HttpResponseHeader → Printed → Option HttpResponseHeader
  stored h (done d) = some (record h { buffer = d })
  stored h aborted = none
  stored h out_of_fuel = none

  unfoldable pub prepare : HttpResponseHeader → ℕ → ℕ → Bool → Option HttpResponseHeader
  unfolding generate_header stored
  prepare h code length keep_alive =
      let h' = record h { code = code; content_length = length; keep_alive = keep_alive } in
      stored h' (generate_header h')
