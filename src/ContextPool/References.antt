-- ===== src/ContextPool/References.antt =====
-- Which calls on the pool of src/io_context_pool.cpp change the references to its contexts.
use lserver.Prelude.{ℕ, ◌≡◌, refl, List, arith}
use lserver.LsContext
use lserver.LsContext.{LsContext}
use lserver.ContextPool.Counts.{IsCount, counts_at}

abbrev pub ref_cnt : LsContext → ℕ
ref_cnt c = c.ref_cnt

pub ref_cnt-IsCount : IsCount ref_cnt
unfolding LsContext.construct LsContext.run_threads LsContext.reuse LsContext.stop
    LsContext.removable LsContext.wait
ref_cnt-IsCount = record {
  construct = λ memory. refl;
  runs = λ c n. refl;
  reuse = λ c n. refl;
  stop = λ c. ground arith;
}

pub hold-ref_cnt : (c : LsContext) → ref_cnt (LsContext.hold c) ≡ ref_cnt c
unfolding LsContext.hold
hold-ref_cnt c = refl

abbrev pub refs_at : List LsContext → ℕ → ℕ
refs_at cs i = counts_at ref_cnt cs i
