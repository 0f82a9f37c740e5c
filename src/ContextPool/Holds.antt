-- ===== src/ContextPool/Holds.antt =====
-- Which calls on the pool of src/io_context_pool.cpp change the holds on its contexts.
use lserver.Prelude.{ℕ, ◌≡◌, ◌≢◌, refl, Option, List, set, get_elem?, some, arith}
use lserver.LsContext
use lserver.LsContext.{LsContext}
use lserver.ContextPool.{ContextPool, add_context, deactivate_context, construct}
use lserver.ContextPool.Invariant.{state_of}
use lserver.ContextPool.Counts.{
  IsCount, count_of, counts_at, counts_at_self, counts_at_other, counts_at-set_same, SameCounts,
  add_context-counts, deactivate_context-counts, construct-counts, ZeroCounts,
}

abbrev pub hold_cnt : LsContext → ℕ
hold_cnt c = c.hold_cnt

hold_cnt-IsCount : IsCount hold_cnt
unfolding LsContext.construct LsContext.run_threads LsContext.reuse LsContext.stop
    LsContext.removable LsContext.wait
hold_cnt-IsCount = record {
  construct = λ memory. refl;
  runs = λ c n. refl;
  reuse = λ c n. refl;
  stop = λ c. ground arith;
}

abbrev pub holds_of : Option LsContext → ℕ
holds_of o = count_of hold_cnt o

abbrev pub holds_at : List LsContext → ℕ → ℕ
holds_at cs i = counts_at hold_cnt cs i

pub holds_at_self :
    (cs : List LsContext) (i : ℕ) (c c' : LsContext)
    → get_elem? cs i ≡ some c
    → holds_at (set cs i c') i ≡ c'.hold_cnt
holds_at_self = counts_at_self hold_cnt

pub holds_at_other :
    (cs : List LsContext) (i j : ℕ) (c' : LsContext)
    → i ≢ j
    → holds_at (set cs i c') j ≡ holds_at cs j
holds_at_other = counts_at_other hold_cnt

pub holds_at-set_same :
    (cs : List LsContext) (i : ℕ) (c c' : LsContext)
    → get_elem? cs i ≡ some c
    → c'.hold_cnt ≡ c.hold_cnt
    → SameCounts hold_cnt cs (set cs i c')
holds_at-set_same = counts_at-set_same hold_cnt

pub add_context-holds :
    (p : ContextPool) (memory n : ℕ)
    → SameCounts hold_cnt p.lscontexts (state_of (add_context p memory n)).lscontexts
add_context-holds = add_context-counts hold_cnt hold_cnt-IsCount

pub deactivate_context-holds :
    (p : ContextPool) (index : ℕ)
    → SameCounts hold_cnt p.lscontexts (state_of (deactivate_context p index)).lscontexts
deactivate_context-holds = deactivate_context-counts hold_cnt hold_cnt-IsCount

pub construct-holds :
    (size max_size memory n : ℕ) → ZeroCounts hold_cnt (construct size max_size memory n)
construct-holds = construct-counts hold_cnt hold_cnt-IsCount
