-- ===== src/Program.antt =====
-- src/program.hpp: a script, its parser and its execution on the shared machine. JSON is read by
-- a library, which is a parameter, as is the address of the program. No code of the repository
-- calls `stop`; a cancellation comes in through the rounds of `Vm.lock` alone.
pub mod Parse
pub mod ReadBack
pub mod Feed
pub mod Download
use Prim.Native.String.{String}
use lserver.Prelude.{
  ℕ, zero, suc, ◌+◌, ◌-◌, ◌*◌, ◌^◌, ◌%◌, Bool, true, false, ◌&&◌, ◌||◌, Option, none, some, List,
  [], ◌∷◌, ◌++◌, ltb, leb, ◌==◌, if◌then◌else◌, add_word, sub_word, length, take, drop,
}
use lserver.DynamicString
use lserver.DynamicString.{DynamicString}
use lserver.Vm
use lserver.Vm.{Vm}
use lserver.Instruction.{
  Op, download, lock, unlock, sleep, loop, BaseOp, Queue, ops, null_op, undefined, lsvm_ops,
  instantiate, emplace,
}

pub record Program : Type 0 where
  pub download_size : ℕ
  pub result_code : ℕ
  pub finished : Bool
  pub instructions : Queue
  pub bytes_processed_cnt : ℕ
  pub has_vm : Bool  -- `vm_ != nullptr`
  pub cancellation_request : Bool

-- `kSendBufferSz`
abbrev pub send_buffer_sz : ℕ
send_buffer_sz = 64 * 1024

abbrev pub empty : Program
empty = record {
  download_size = 0;
  result_code = 200;
  finished = false;
  instructions = ops [];
  bytes_processed_cnt = 0;
  has_vm = false;
  cancellation_request = false;
}

abbrev pub sinkhole : Program
sinkhole = empty

-- `operator=`: what it leaves is the same whatever the program was before.
unfoldable pub assign : Queue → Program
assign other = record empty { instructions = other }

abbrev pub set_vm : Program → Program
set_vm p = record p { has_vm = true }

unfoldable pub reset : Program → Vm → (self : ℕ) → Program × Vm
reset p vm self = (
  record p { instructions = ops []; has_vm = false },
  if p.has_vm then Vm.cleanup vm self else vm,
)

pub data Ran : Type 0 where
  ran : Program → Vm → Ran
  blocked : Program → Vm → Ran

pub data Fed : Type 0 where
  fed : Program → Vm → (finished : Bool) → Fed
  stuck : Program → Vm → Fed  -- in `lock`
  crashed : Fed  -- a null pointer is followed
  out_of_fuel : Fed

-- The virtual `run`. `rounds` is what a thread that waits for a resource sees of the others.
module _ (rounds : List (Bool × (Vm → Vm))) (memory self : ℕ) where
  lock_result : Program → Vm.Locked → Ran
  lock_result p (Vm.acquired vm) = ran p vm
  lock_result p (Vm.cancelled vm) = ran (record p { cancellation_request = true }) vm
  lock_result p (Vm.waiting vm) = blocked p vm

  unfoldable pub run_op : Op → (operand : ℕ) → Program → Vm → Ran
  unfolding lock_result
  run_op download operand p vm = ran (record p { result_code = 200; download_size = operand }) vm
  run_op lock operand p vm = lock_result p (Vm.lock rounds vm memory self operand)
  run_op unlock operand p vm = ran p (Vm.unlock vm memory self operand)
  run_op sleep operand p vm = ran p vm
  run_op loop operand p vm = ran p vm

  -- The `while` of `feed`, a round for each unit of fuel.
  unfoldable pub feed_loop : ℕ → Program → Vm → (eof : Bool) → Fed
  unfolding run_op
  feed_loop zero p vm eof = out_of_fuel
  feed_loop (suc fuel) p vm eof = elim p.cancellation_request [
    | true ↦ fed (record p { finished = eof }) vm eof
    | false ↦ elim p.instructions [
      | null_op ↦ crashed
      | undefined ↦ crashed
      | ops is ↦ elim is [
        | [] ↦ fed (record p { finished = eof }) vm eof
        | i ∷ rest ↦ elim (leb i.exec_point p.bytes_processed_cnt) [
          | false ↦ feed_loop fuel p vm eof
          | true ↦ elim p.has_vm [
            | false ↦ crashed
            | true ↦ elim (run_op i.op i.operand p vm) [
              | ran q vm' ↦ feed_loop fuel (record q { instructions = ops rest }) vm' eof
              | blocked q vm' ↦ stuck q vm'
            ]
          ]
        ]
      ]
    ]
  ]

  unfoldable pub feed : ℕ → Program → Vm → (len : ℕ) (eof : Bool) → Fed
  feed fuel p vm len eof =
      feed_loop fuel (record p { bytes_processed_cnt = add_word p.bytes_processed_cnt len }) vm eof

-- `none` is an `assert` that does not hold.
abbrev pub has_more_data : Program → Option Bool
has_more_data p = if p.finished then some (ltb 0 p.download_size) else none

unfoldable pub get_data : Program → DynamicString → Option (Program × DynamicString)
get_data p d =
    let count = if ltb p.download_size send_buffer_sz then p.download_size else send_buffer_sz in
    if ltb 0 p.download_size
    then elim (DynamicString.fill d count) [
      | none ↦ none
      | some d' ↦ some (record p { download_size = sub_word p.download_size count }, d')
    ]
    else none

-- The document that the JSON library reads: an array of objects, each from a trigger point to an
-- object from opcode to operand, the keys of an object in order.
abbrev pub Document : Type 0
Document = List (List (List ℕ × List (String × List ℕ)))

is_space : ℕ → Bool
is_space c = c == 32 || (leb 9 c && leb c 13)

is_digit : ℕ → Bool
is_digit c = leb 48 c && leb c 57

skip_spaces : List ℕ → List ℕ
skip_spaces [] = []
skip_spaces (c ∷ cs) = let rest = skip_spaces cs in if is_space c then rest else c ∷ cs

-- The digits at the front, most significant first; `none` if there is none.
read_digits : List ℕ → Option ℕ → Option ℕ
read_digits [] acc = acc
read_digits (c ∷ cs) acc =
    let d = c - 48 in
    let rest = read_digits cs (elim acc [ none ↦ some d | some v ↦ some (10 * v + d) ]) in
    if is_digit c then rest else acc

in_range : Option ℕ → Option ℕ
in_range none = none
in_range (some v) = if ltb v (2 ^ 64) then some v else none

negate : Option ℕ → Option ℕ
negate none = none
negate (some v) = some (sub_word 0 v)

signed : List ℕ → Option ℕ
signed [] = none
signed (c ∷ cs) =
    if c == 43
    then in_range (read_digits cs none)
    else if c == 45
    then negate (in_range (read_digits cs none))
    else in_range (read_digits (c ∷ cs) none)

-- `std::stoul`; `none` is an exception.
unfoldable pub stoul : List ℕ → Option ℕ
unfolding skip_spaces read_digits in_range negate signed is_space is_digit
stoul text = signed (skip_spaces text)

pub data Built : Type 0 where
  built : Queue → Built
  bad_program : Built
  empty_map : Built  -- `begin()` of an empty map is followed

-- The program line, and all the lines, in the constructor of `Program`.
build_entry : List ℕ × List (String × List ℕ) → Queue → Built
build_entry (point, []) q = elim (stoul point) [ none ↦ bad_program | some e ↦ empty_map ]
build_entry (point, (opcode, arg) ∷ others) q = elim (stoul point) [
  | none ↦ bad_program
  | some e ↦ elim (stoul arg) [
    | none ↦ bad_program
    | some v ↦ built (emplace (instantiate lsvm_ops opcode e v) q)
  ]
]

build_entries : List (List ℕ × List (String × List ℕ)) → Queue → Built
build_entries [] q = built q
build_entries (entry ∷ entries) q = elim (build_entry entry q) [
  | bad_program ↦ bad_program
  | empty_map ↦ empty_map
  | built q' ↦ build_entries entries q'
]

unfoldable pub build : Document → Queue → Built
unfolding build_entries build_entry
build [] q = built q
build (line ∷ lines) q = elim (build_entries line q) [
  | bad_program ↦ bad_program
  | empty_map ↦ empty_map
  | built q' ↦ build lines q'
]

pub data Parsed : Type 0 where
  success : Program → (consume_len : ℕ) → Parsed
  need_more_data : Parsed
  failed : Parsed
  crashed : Parsed

-- `find` of the marker that ends the header.
unfoldable pub find_newline : List ℕ → Option ℕ
find_newline [] = none
find_newline (c ∷ cs) =
    let rest = find_newline cs in
    if c == 10 then some 0 else elim rest [ none ↦ none | some i ↦ some (suc i) ]

module _ (parse_json : List ℕ → Option Document) where
  unfoldable pub construct : List ℕ → Built
  construct text = elim (parse_json text) [ none ↦ bad_program | some doc ↦ build doc (ops []) ]

  unfoldable pub finish : Built → (consume_len : ℕ) → Parsed
  unfolding assign
  finish (built q) consume_len = success (assign q) consume_len
  finish bad_program consume_len = failed
  finish empty_map consume_len = crashed

  -- `data` are the bytes of the stream that have arrived, `beyond` what follows them in memory.
  unfoldable pub try_parse : (received beyond : List ℕ) → Parsed
  unfolding construct finish
  try_parse received beyond = elim (find_newline received) [
    | none ↦ need_more_data
    | some pheader_end ↦ elim (stoul (take pheader_end received)) [
      | none ↦ failed
      | some prog_len ↦
          let text = take prog_len (drop (pheader_end + 1) (received ++ beyond)) in
          if ltb (length received) prog_len
          then need_more_data
          else if prog_len == 0
          then failed
          else finish (construct text) (pheader_end + 1 + prog_len)
    ]
  ]
