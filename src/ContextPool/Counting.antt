-- ===== src/ContextPool/Counting.antt =====
-- How many contexts of src/io_context_pool.cpp are active, before and after a change.
use lserver.Prelude.{
  ℕ, zero, suc, ◌+◌, ◌≡◌, Option, none, some, List, [], ◌∷◌, ◌++◌, arith, if◌then◌else◌, length,
  get_elem?, set, Bool-cases, inl, inr,
}
use lserver.LsContext
use lserver.LsContext.{LsContext}
use lserver.ContextPool.{reuse_first, active_count}

unfoldable pub weight : LsContext → ℕ
weight c = if c.active then 1 else 0

pub active_count-set :
    (cs : List LsContext) (i : ℕ) (c c' : LsContext)
    → get_elem? cs i ≡ some c
    → active_count (set cs i c') + weight c ≡ active_count cs + weight c'
unfolding active_count weight
active_count-set [] i c c' e = absurd (cc e)
active_count-set (x ∷ cs) zero c c' e = ground arith
active_count-set (x ∷ cs) (suc i) c c' e = ground (arith, active_count-set cs i c c' e)

pub active_count-append :
    (cs : List LsContext) (c : LsContext) → active_count (cs ++ c ∷ []) ≡ active_count cs + weight c
unfolding active_count weight
active_count-append [] c = ground arith
active_count-append (x ∷ cs) c = ground (arith, active_count-append cs c)

-- Reusing a context keeps the vector's length and adds one active context.
abbrev pub Reuses : List LsContext → Option (List LsContext) → Type 0
Reuses cs none = Unit {0}
Reuses cs (some cs') = (length cs' ≡ length cs) × (active_count cs' ≡ active_count cs + 1)

Reuses-cons :
    (c : LsContext) (cs : List LsContext) (o : Option (List LsContext))
    → Reuses cs o
    → Reuses (c ∷ cs) (elim o [ none ↦ none | some cs' ↦ some (c ∷ cs') ])
unfolding active_count
Reuses-cons c cs none h = tt
Reuses-cons c cs (some cs') h = (omega arith, ground arith)

pub reuse_first-Reuses : (cs : List LsContext) (n : ℕ) → Reuses cs (reuse_first cs n)
unfolding reuse_first active_count LsContext.reusable LsContext.reuse
reuse_first-Reuses [] n = tt
reuse_first-Reuses (c ∷ cs) n = elim (Bool-cases (LsContext.reusable c)) [
  | inl now ↦ rw now (omega arith, ground arith)
  | inr later ↦ rw later (Reuses-cons c cs (reuse_first cs n) (reuse_first-Reuses cs n))
]
