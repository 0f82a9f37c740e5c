-- ===== src/Program/Parse.antt =====
-- What `try_parse` of src/program.hpp reads and consumes.
use lserver.Prelude.{
  ℕ, ◌+◌, ◌≤◌, ◌<◌, ◌≡◌, ◌≢◌, Option, some, List, [], ◌∷◌, ◌++◌, arith, ap, ◌∙◌, sym, length, take,
  drop, inl, inr, Option-cases, take-drop-append_within, take-drop-append_beyond,
}
use lserver.Program.{
  Program, Document, stoul, Built, built, bad_program, empty_map, success, need_more_data,
  find_newline, construct, finish, try_parse,
}

-- The header of a stream: where its first line ends, and the number that stands there.
pub record HasHeader (received : List ℕ) (header prog_len : ℕ) : Type 0 where
  pub newline : find_newline received ≡ some header
  pub number : stoul (take header received) ≡ some prog_len

find_newline-lt : (xs : List ℕ) (i : ℕ) → find_newline xs ≡ some i → i + 1 ≤ length xs
unfolding find_newline
find_newline-lt [] i e = absurd (cc e)
find_newline-lt (x ∷ xs) i e = elim (Option-cases (find_newline xs)) [
  | inl missing ↦ ground (arith, missing)
  | inr (j, found) ↦ ground (arith, found, find_newline-lt xs j)
]

module _ (parse_json : List ℕ → Option Document) where
  -- The text between the header and the end of the program, as it lies in memory.
  abbrev pub program_text : (received beyond : List ℕ) (header prog_len : ℕ) → List ℕ
  program_text received beyond header prog_len =
      take prog_len (drop (header + 1) (received ++ beyond))

  parses :
      (received beyond : List ℕ) (header prog_len : ℕ)
      → HasHeader received header prog_len
      → 0 < prog_len
      → prog_len ≤ length received
      → try_parse parse_json received beyond
        ≡ finish parse_json
            (construct parse_json (program_text received beyond header prog_len))
            (header + 1 + prog_len)
  unfolding try_parse
  parses received beyond header prog_len h pos le = ground (arith, h.newline, h.number)

  finish-success : (b : Built) (n m : ℕ) (p : Program) → finish parse_json b n ≡ success p m → m ≡ n
  unfolding finish
  finish-success (built q) n m p e = ground arith
  finish-success bad_program n m p e = absurd (cc e)
  finish-success empty_map n m p e = absurd (cc e)

  -- When a stream starts with a line that holds the positive length of the program, and header
  -- and program have arrived, `try_parse` builds the program from exactly its own bytes, whatever
  -- follows them in memory, and if it succeeds it consumes exactly the header and the program.
  pub try_parse_whole :
      (received beyond : List ℕ) (header prog_len : ℕ)
      → HasHeader received header prog_len
      → 0 < prog_len
      → header + 1 + prog_len ≤ length received
      → (try_parse parse_json received beyond
          ≡ finish parse_json
              (construct parse_json (take prog_len (drop (header + 1) received)))
              (header + 1 + prog_len))
        × ((p : Program) (n : ℕ)
            → try_parse parse_json received beyond ≡ success p n
            → (n ≡ header + 1 + prog_len) × (n ≤ length received))
  try_parse_whole received beyond header prog_len h pos whole = (
    own,
    λ p n e.
        let same = finish-success _ (header + 1 + prog_len) n p (sym own ∙ e) in
        (same, omega arith),
  )
    where
      own :
          try_parse parse_json received beyond
          ≡ finish parse_json
              (construct parse_json (take prog_len (drop (header + 1) received)))
              (header + 1 + prog_len)
      own =
          parses received beyond header prog_len h pos (omega arith)
          ∙ ap (λ text. finish parse_json (construct parse_json text) (header + 1 + prog_len))
              (take-drop-append_within prog_len (header + 1) received beyond whole)

  finish-ne-need_more_data : (b : Built) (n : ℕ) → finish parse_json b n ≢ need_more_data
  unfolding finish
  finish-ne-need_more_data (built q) n e = cc e
  finish-ne-need_more_data bad_program n e = cc e
  finish-ne-need_more_data empty_map n e = cc e

  -- When the positive length in the header is at most the number of bytes that have arrived,
  -- header included, but the program has not all arrived, `try_parse` does not ask for more data:
  -- it builds the program from what has arrived and the bytes that follow it in memory.
  pub try_parse_overrun :
      (received beyond : List ℕ) (header prog_len missing : ℕ)
      → HasHeader received header prog_len
      → 0 < prog_len
      → prog_len ≤ length received
      → header + 1 + prog_len ≡ length received + missing
      → (try_parse parse_json received beyond ≢ need_more_data)
        × (try_parse parse_json received beyond
            ≡ finish parse_json
                (construct parse_json (drop (header + 1) received ++ take missing beyond))
                (header + 1 + prog_len))
  try_parse_overrun received beyond header prog_len missing h pos le e = (
    λ r. finish-ne-need_more_data _ _ (sym (parses received beyond header prog_len h pos le) ∙ r),
    parses received beyond header prog_len h pos le
        ∙ ap (λ text. finish parse_json (construct parse_json text) (header + 1 + prog_len))
            (take-drop-append_beyond prog_len (header + 1) missing received beyond
              (find_newline-lt received header h.newline) e),
  )
