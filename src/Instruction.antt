-- ===== src/Instruction.antt =====
-- src/vm_instructions_base.hpp, src/vm_instructions_list.hpp, src/vm_instructions.hpp: the
-- instructions of a script, and the queue that holds them. The classes derived from `Op` are the
-- constructors of `Op`; a null `OpPtr` is `none`.
-- `std::priority_queue` with `OpCompare` is a list with the smallest `exec_point_` first. The
-- order of equal ones is unspecified; here the one that came first is first.
pub mod Order
use Prim.Native.String.{String}
use text.Mathlib.Text.{◌==◌ as str_eq}
use lserver.Prelude.{
  ℕ, Bool, true, false, Option, none, some, List, [], ◌∷◌, ltb, leb, if◌then◌else◌,
}

pub data Op : Type 0 where
  download lock unlock sleep loop : Op

pub record BaseOp : Type 0 where
  pub op : Op
  pub exec_point : ℕ
  pub operand : ℕ

-- `D::get_instance(args...)`: an instance from the pool, its arguments set.
abbrev pub get_instance : Op → (exec_point operand : ℕ) → BaseOp
get_instance op exec_point operand = record { op = op; exec_point = exec_point; operand = operand }

-- The static member `name_` of each class.
abbrev pub name : Op → String
name download = "DOWNLOAD"
name lock = "LOCK"
name unlock = "UNLOCK"
name sleep = "SLEEP"
name loop = "LOOP"

-- `LSVMOps`
abbrev pub lsvm_ops : List Op
lsvm_ops = download ∷ lock ∷ unlock ∷ sleep ∷ loop ∷ []

-- `OpList<H, T...>::instantiate`, down to the null pointer of `OpList<>`.
unfoldable pub instantiate : List Op → String → (exec_point operand : ℕ) → Option BaseOp
instantiate [] opcode exec_point operand = none
instantiate (h ∷ t) opcode exec_point operand =
    if str_eq opcode (name h)
    then some (get_instance h exec_point operand)
    else instantiate t opcode exec_point operand

-- `OpCompare`: whether `left` comes out after `right`.
abbrev pub op_compare : BaseOp → BaseOp → Bool
op_compare left right = ltb right.exec_point left.exec_point

unfoldable pub push : BaseOp → List BaseOp → List BaseOp
push op [] = op ∷ []
push op (top ∷ rest) = if op_compare top op then op ∷ top ∷ rest else top ∷ push op rest

pub data Queue : Type 0 where
  ops : List BaseOp → Queue
  null_op : Queue  -- the null pointer alone
  undefined : Queue  -- after a null pointer has been compared

-- `instructions_.emplace`: with anything in the queue, the new pointer is compared.
unfoldable pub emplace : Option BaseOp → Queue → Queue
emplace (some op) (ops is) = ops (push op is)
emplace none (ops []) = null_op
emplace none (ops (i ∷ is)) = undefined
emplace op null_op = undefined
emplace op undefined = undefined
