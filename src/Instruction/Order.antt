-- ===== src/Instruction/Order.antt =====
-- Instructions come out of the queue in the order of their trigger points.
use mathlib.Core.List.{Perm}
use mathlib.Core.List.Perm
use lserver.Prelude.{ℕ, ◌≤◌, List, [], ◌∷◌, arith, All, if_elim}
use lserver.Instruction.{BaseOp, push, op_compare}

abbrev pub IsSorted : List BaseOp → Type 0
IsSorted [] = Unit {0}
IsSorted (i ∷ is) = All (λ j. i.exec_point ≤ j.exec_point) is × IsSorted is

push-All :
    (b : ℕ) (op : BaseOp) (is : List BaseOp)
    → b ≤ op.exec_point
    → All (λ j. b ≤ j.exec_point) is
    → All (λ j. b ≤ j.exec_point) (push op is)
unfolding push
push-All b op [] h a = (h, tt)
push-All b op (i ∷ is) h a = ground (arith, push-All b op is h a.1)

All-le :
    (b c : ℕ) (is : List BaseOp)
    → b ≤ c
    → All (λ j. c ≤ j.exec_point) is
    → All (λ j. b ≤ j.exec_point) is
All-le b c [] h a = tt
All-le b c (i ∷ is) h a = (omega arith, All-le b c is h a.1)

-- A queue in the order of the trigger points stays so when an instruction is put in.
pub push-IsSorted : (op : BaseOp) (is : List BaseOp) → IsSorted is → IsSorted (push op is)
unfolding push
push-IsSorted op [] s = (tt, tt)
push-IsSorted op (i ∷ is) s =
    if_elim IsSorted (op_compare i op) (op ∷ i ∷ is) (i ∷ push op is)
      (λ before. ((ground arith, All-le op.exec_point i.exec_point is (ground arith) s.0), s))
      (λ after. (push-All i.exec_point op is (ground arith) s.0, push-IsSorted op is s.1))

-- Putting an instruction into the queue adds that instruction and nothing else: the result is a
-- permutation of the queue with the instruction in front.
pub push-perm : (op : BaseOp) (is : List BaseOp) → Perm (push op is) (op ∷ is)
unfolding push
push-perm op [] = Perm.refl (op ∷ [])
push-perm op (i ∷ is) =
    if_elim (λ l. Perm l (op ∷ i ∷ is)) (op_compare i op) (op ∷ i ∷ is) (i ∷ push op is)
      (λ before. Perm.refl (op ∷ i ∷ is))
      (λ after. Perm.trans (Perm.cons i (push-perm op is)) (Perm.swap op i is))

-- Putting an instruction into a queue that is in the order of the trigger points leaves it in that
-- order, and the result is a permutation of the queue with the instruction in front.
pub push_lem :
    (op : BaseOp) (is : List BaseOp)
    → IsSorted is
    → IsSorted (push op is) × Perm (push op is) (op ∷ is)
push_lem op is s = (push-IsSorted op is s, push-perm op is)
