-- ===== src/HttpHeader.antt =====
-- src/http_header.hpp and the comparison of src/utils.hpp: the header of a request. The parser is
-- another project's: `execute` stands for it, as the callbacks that it makes for the bytes of a
-- header, with the value that it leaves in `content_length`, `none` for a negative one. The bytes of
-- a field name are below 128, as the parser sees to.
pub mod Fields
use lserver.Prelude.{
  ℕ, zero, suc, ◌+◌, Bool, true, false, not, ◌&&◌, ◌||◌, Option, none, some, List, [], ◌∷◌, ltb,
  leb, ◌==◌, if◌then◌else◌, take,
}

pub data HeaderState : Type 0 where
  k_none k_connection : HeaderState

pub record HttpRequestHeader : Type 0 where
  pub keep_alive : Bool
  pub ready : Bool
  pub header_state : HeaderState
  pub content_length : Option ℕ
  pub url : List ℕ

abbrev pub charmap : ℕ → ℕ
charmap c = if (leb 65 c && leb c 90) || (leb 193 c && leb c 218) then c + 32 else c

-- `nocase_compare`
unfoldable pub nocase_less : List ℕ → List ℕ → Bool
nocase_less [] [] = false
nocase_less [] (y ∷ ys) = true
nocase_less (x ∷ xs) [] = false
nocase_less (x ∷ xs) (y ∷ ys) =
    let rest = nocase_less xs ys in
    if ltb (charmap x) (charmap y)
    then true
    else if ltb (charmap y) (charmap x)
    then false
    else rest

-- `"connection"`
abbrev pub connection : List ℕ
connection = 99 ∷ 111 ∷ 110 ∷ 110 ∷ 101 ∷ 99 ∷ 116 ∷ 105 ∷ 111 ∷ 110 ∷ []

-- `header_names.find`: a key is found that is neither less nor greater.
unfoldable pub find_name : List ℕ → HeaderState
unfolding nocase_less
find_name name =
    if nocase_less name connection || nocase_less connection name then k_none else k_connection

unfoldable pub set_field : HttpRequestHeader → List ℕ → HttpRequestHeader
unfolding find_name
set_field h buf = record h { header_state = find_name buf }

-- `0 == strncasecmp(buf, text, len)`, with the terminator of `text` written out.
unfoldable pub same_start : (buf text : List ℕ) → Bool
same_start [] text = true
same_start (x ∷ xs) [] = true
same_start (x ∷ xs) (y ∷ ys) =
    let rest = same_start xs ys in
    let lower : ℕ → ℕ = λ c. if leb 65 c && leb c 90 then c + 32 else c in
    if lower x == lower y then (if y == 0 then true else rest) else false

-- `"close"` and `"keep-alive"`
abbrev pub close_text : List ℕ
close_text = 99 ∷ 108 ∷ 111 ∷ 115 ∷ 101 ∷ 0 ∷ []

abbrev pub keep_alive_text : List ℕ
keep_alive_text = 107 ∷ 101 ∷ 101 ∷ 112 ∷ 45 ∷ 97 ∷ 108 ∷ 105 ∷ 118 ∷ 101 ∷ 0 ∷ []

unfoldable pub set_value : HttpRequestHeader → List ℕ → HttpRequestHeader
unfolding same_start
set_value h buf = elim h.header_state [
  | k_none ↦ h
  | k_connection ↦ record h {
    header_state = k_none;
    keep_alive =
        if same_start buf close_text
        then false
        else if same_start buf keep_alive_text
        then true
        else h.keep_alive;
  }
]

abbrev pub set_url : HttpRequestHeader → List ℕ → HttpRequestHeader
set_url h buf = record h { url = buf }

pub data Callback : Type 0 where
  on_url on_header_field on_header_value : List ℕ → Callback

-- The free functions that pass the callbacks on; an empty URL is not passed on.
unfoldable pub notify : HttpRequestHeader → Callback → HttpRequestHeader
unfolding set_field set_value
notify h (on_url []) = h
notify h (on_url (c ∷ cs)) = set_url h (c ∷ cs)
notify h (on_header_field buf) = set_field h buf
notify h (on_header_value buf) = set_value h buf

unfoldable pub notify_all : HttpRequestHeader → List Callback → HttpRequestHeader
unfolding notify
notify_all h [] = h
notify_all h (c ∷ cs) = notify_all (notify h c) cs

-- `hdrfn` at the front.
abbrev pub ends_here : List ℕ → Bool
ends_here (a ∷ b ∷ c ∷ d ∷ _) = (a == 13) && ((b == 10) && ((c == 13) && (d == 10)))
ends_here _ = false

-- `memmem`, and the offset behind what it finds.
unfoldable pub find_blank_line : List ℕ → Option ℕ
find_blank_line [] = none
find_blank_line (x ∷ xs) =
    let rest = find_blank_line xs in
    if ends_here (x ∷ xs) then some 4 else elim rest [ none ↦ none | some i ↦ some (suc i) ]

-- The offset, if there is one; the outer `none` is an `assert` that does not hold.
unfoldable pub find_request_header_end_offset : HttpRequestHeader → List ℕ → Option (Option ℕ)
unfolding find_blank_line
find_request_header_end_offset h bytes = if h.ready then none else some (find_blank_line bytes)

abbrev pub reset : HttpRequestHeader
reset = record {
  keep_alive = false;
  ready = false;
  header_state = k_none;
  content_length = none;
  url = [];
}

-- `none` is an `assert` that does not hold.
unfoldable pub get_content_length : HttpRequestHeader → Option ℕ
get_content_length h =
    if h.ready then some (elim h.content_length [ none ↦ 0 | some n ↦ n ]) else none

unfoldable pub get_keep_alive : HttpRequestHeader → Option Bool
get_keep_alive h = if h.ready then some h.keep_alive else none

module _ (execute : List ℕ → List Callback × Option ℕ) where
  unfoldable pub try_parse : HttpRequestHeader → List ℕ → Option (HttpRequestHeader × Option ℕ)
  unfolding find_request_header_end_offset notify_all
  try_parse h bytes = elim (find_request_header_end_offset h bytes) [
    | none ↦ none
    | some end ↦ elim end [
      | none ↦ some (h, none)
      | some header_end ↦
          (let (callbacks, content_length) = execute (take header_end bytes) in
            some (
              record (notify_all h callbacks) { ready = true; content_length = content_length },
              some header_end,
            ))
    ]
  ]

unfoldable pub url_prefix : (pref url : List ℕ) → Bool
url_prefix [] url = true
url_prefix (p ∷ pref) [] = false
url_prefix (p ∷ pref) (c ∷ url) = let rest = url_prefix pref url in if p == c then rest else false
