-- ===== src/Examples/Contexts.antt =====
-- A pool of src/io_context_pool.cpp with two contexts, of which one has been deactivated.
use lserver.Prelude.{◌≤◌, length, ℕ, ◌<◌, ◌≤◌, ◌≡◌, ◌⊎◌, true, false, [], ◌∷◌, arith, length}
use lserver.Pool
use lserver.LsContext.{LsContext}
use lserver.ContextPool.{
  ContextPool, made, not_made, max_contexts, Error, returned, threw, get_context_round_robin,
  deactivate_context, active_contexts_count, construct,
}
use lserver.ContextPool.RoundRobin.{Serves, active_at}
use lserver.ContextPool.Invariant.{IsValid, Call, run, run-IsValid}
use lserver.ContextPool.Reconfigure.{
  dispatch_returns, construct-IsValid, deactivate_context_lem, Deactivates,
}

abbrev on : LsContext
on = record {
  threads = 2;
  running = 2;
  io_stopped = false;
  work_guard = true;
  num_threads = 2;
  strand_pool = Pool.empty 0;
  ref_cnt = 0;
  hold_cnt = 0;
  active = true;
}

abbrev off : LsContext
off = record on { active = false; running = 0 }

abbrev two : ContextPool
two = record { lscontexts = off ∷ on ∷ []; capacity = 4; next_context = 0 }

abbrev full : ContextPool
full = record { lscontexts = on ∷ on ∷ []; capacity = 4; next_context = 1 }

abbrev dead : ContextPool
dead = record { lscontexts = off ∷ []; capacity = 1; next_context = 0 }

two-IsValid : IsValid two
unfolding active_contexts_count
two-IsValid = record { bounded = omega arith; pointed = omega arith; serving = omega arith }

run-IsValid_example : IsValid (run two (Call.dispatch ∷ Call.add 0 3 ∷ Call.deactivate 1 ∷ []))
run-IsValid_example =
    run-IsValid two (Call.dispatch ∷ Call.add 0 3 ∷ Call.deactivate 1 ∷ []) two-IsValid

dispatch_returns_example :
    let q = run two (Call.deactivate 1 ∷ []) in
    (k : ℕ) × Serves q (get_context_round_robin (length q.lscontexts) q) k
dispatch_returns_example = dispatch_returns two (Call.deactivate 1 ∷ []) two-IsValid

construct-IsValid_example :
    ((2 ≤ 4)
      × ((p : ContextPool) × (construct 2 4 0 3 ≡ made p)
          × IsValid p
          × (length p.lscontexts ≡ 2)
          × (active_contexts_count p ≡ 2)))
    ⊎ ((4 < 2) × (construct 2 4 0 3 ≡ not_made max_contexts))
construct-IsValid_example = construct-IsValid 0 3 (omega arith) (omega arith) 2 4 (omega arith)

deactivate_context_lem_example :
    ((q : ContextPool) × (rc : ℕ) × (deactivate_context full 0 ≡ returned q rc)
      × (active_at full.lscontexts 0 ≡ true)
      × (2 ≤ active_contexts_count full)
      × Deactivates full 0 q rc)
    ⊎ ((e : Error) × (deactivate_context full 0 ≡ threw full e)
        × ((active_at full.lscontexts 0 ≡ false) ⊎ (active_contexts_count full < 2)))
deactivate_context_lem_example = deactivate_context_lem full 0
