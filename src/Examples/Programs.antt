-- ===== src/Examples/Programs.antt =====
-- Scripts of src/program.hpp, read and run.
use lserver.Prelude.{
  ap, ℕ, zero, suc, ◌<◌, ◌==◌, ◌&&◌, if◌then◌else◌, ◌+◌, ◌≤◌, ◌≡◌, ◌≢◌, refl, true, Option, none,
  some, List, [], ◌∷◌, ◌++◌, arith, All, length, take, drop,
}
use lserver.DynamicString.{DynamicString}
use lserver.Vm.{Vm}
use lserver.Instruction.{download, unlock, BaseOp, get_instance, ops}
use lserver.Program.{
  Program, empty, Document, need_more_data, success, construct, finish, try_parse, feed,
  out_of_fuel, send_buffer_sz, stoul, find_newline,
}
use lserver.Program.Feed.{feed_spins, feed-Ends, feed-Downloads, Ends, Downloads}
use lserver.Program.Download.{drain, sum, drain_sends}
use lserver.Program.ReadBack.{encode, try_parse-encode}
use lserver.Program.Parse.{HasHeader, try_parse_whole, try_parse_overrun}

abbrev machine : Vm
machine = record { resources = [] }

abbrev script : List BaseOp
script = get_instance unlock 0 7 ∷ get_instance download 3 100 ∷ []

abbrev program : Program
program = record empty { instructions = ops script; has_vm = true }

-- `"2\n[]"`, and the same with its last byte missing.
abbrev stream : List ℕ
stream = 50 ∷ 10 ∷ 91 ∷ 93 ∷ []

abbrev partial : List ℕ
partial = 50 ∷ 10 ∷ 91 ∷ []

-- A reader of the empty array alone.
abbrev read_empty : List ℕ → Option Document
read_empty (a ∷ b ∷ []) = if a == 91 && b == 93 then some [] else none
read_empty _ = none

abbrev has_header : (rest : List ℕ) → HasHeader (50 ∷ 10 ∷ rest) 1 2
has_header rest = record { newline = unfold find_newline in refl; number = unfold stoul in refl }

try_parse_whole_example :
    (try_parse read_empty stream (0 ∷ [])
      ≡ finish read_empty (construct read_empty (take 2 (drop (1 + 1) stream))) (1 + 1 + 2))
    × ((p : Program) (n : ℕ)
        → try_parse read_empty stream (0 ∷ []) ≡ success p n
        → (n ≡ 1 + 1 + 2) × (n ≤ length stream))
try_parse_whole_example =
    try_parse_whole read_empty stream (0 ∷ []) 1 2 (has_header (91 ∷ 93 ∷ [])) (omega arith)
      (omega arith)

try_parse-encode_example :
    try_parse read_empty (encode (91 ∷ 93 ∷ []) ++ 5 ∷ 6 ∷ []) (0 ∷ [])
    ≡ finish read_empty (construct read_empty (91 ∷ 93 ∷ [])) (length (encode (91 ∷ 93 ∷ [])))
try_parse-encode_example =
    try_parse-encode read_empty (91 ∷ 93 ∷ []) (5 ∷ 6 ∷ []) (0 ∷ []) (omega arith) (omega arith)

try_parse_overrun_example :
    (try_parse read_empty partial (93 ∷ []) ≢ need_more_data)
    × (try_parse read_empty partial (93 ∷ [])
        ≡ finish read_empty
            (construct read_empty (drop (1 + 1) partial ++ take 1 (93 ∷ [])))
            (1 + 1 + 2))
try_parse_overrun_example =
    try_parse_overrun read_empty partial (93 ∷ []) 1 2 1 (has_header (91 ∷ [])) (omega arith)
      (omega arith) refl

abbrev waiting : Program
waiting = record empty { instructions = ops (get_instance download 3 100 ∷ []); has_vm = true }

feed_spins_example : feed [] 0 9 20 waiting machine 2 true ≡ out_of_fuel
feed_spins_example =
    feed_spins [] 0 9 20 waiting machine 2 true (get_instance download 3 100) [] refl refl
      (omega arith)

feed-Ends_example : Ends [] 0 9 script true (feed [] 0 9 3 program machine 3 true)
feed-Ends_example =
    feed-Ends [] 0 9 program machine 3 true script refl refl (omega arith, (omega arith, tt))

feed-Downloads_example : Downloads [] 0 9 script 0 true (feed [] 0 9 3 program machine 3 true)
feed-Downloads_example =
    feed-Downloads [] 0 9 program machine 3 true script refl refl refl
      (omega arith, (omega arith, tt)) ((λ e. cc e), ((λ e. cc e), tt))

unfoldable zeros : ℕ → List ℕ
zeros zero = []
zeros (suc n) = 0 ∷ zeros n

length-zeros : (n : ℕ) → length (zeros n) ≡ n
unfolding zeros
length-zeros zero = refl
length-zeros (suc n) = ap suc (length-zeros n)

abbrev buffer : DynamicString
buffer = record { capacity = 65536; written = []; unused = zeros 65536 }

-- Two full chunks and a rest.
abbrev sending : Program
sending = record empty { download_size = 150000; finished = true }

drain_sends_example :
    (sum (drain 150000 sending buffer) ≡ 150000)
    × All (λ n. (0 < n) × (n ≤ send_buffer_sz)) (drain 150000 sending buffer)
drain_sends_example =
    drain_sends 150000 sending buffer refl (omega (arith, length-zeros 65536)) (omega arith)
      (omega arith) (omega arith)
