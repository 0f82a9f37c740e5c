-- ===== src/Server/Sessions/Begin.antt =====
-- The server of src/server.hpp as its constructor leaves it: no session, and no reference.
use lserver.Prelude.{
  ℕ, ◌≡◌, refl, ◌∙◌, subst, false, List, if_elim, if◌then◌else◌, lookup, Distinct, length,
}
use lserver.Config.{LsConfig}
use lserver.ContextPool
use lserver.ContextPool.{ContextPool, Outcome, Chosen}
use lserver.ContextPool.Counts.{
  SameCounts, SameChosen, construct-counts, ZeroCounts, get_context_round_robin-counts,
}
use lserver.ContextPool.References.{ref_cnt, ref_cnt-IsCount, hold-ref_cnt, refs_at}
use lserver.Pool
use lserver.Pool.{Pool}
use lserver.Pool.Stack.{construct-StartsIdle, StartsIdle}
use lserver.Server.{Server}
use lserver.Server.Built.{
  Constructed, constructed, bad_contexts, bad_pool, no_context, initial, with_acceptor, construct,
}
use lserver.Server.Sessions.References.{IsTied}

abbrev NoRefs : ContextPool → Type 0
NoRefs p = (i : ℕ) → refs_at p.lscontexts i ≡ 0

module _ {ℓ} (S : Type ℓ) where
  abbrev TiedConstructed : Constructed S → Type 0
  TiedConstructed (constructed s) = IsTied s
  TiedConstructed (bad_contexts e) = Unit
  TiedConstructed (bad_pool e) = Unit
  TiedConstructed no_context = Unit

  with_acceptor-IsTied :
      (config : LsConfig) (w a : ContextPool) (pool : Pool) (r : Chosen)
      → NoRefs w
      → Distinct pool.pool
      → pool.callback_active ≡ false
      → SameChosen ref_cnt (if config.separate_acceptor_thread then a else w) r
      → TiedConstructed (with_acceptor {S = S} config w pool a r)
  unfolding with_acceptor initial lookup
  with_acceptor-IsTied config w a pool (Chosen.chosen q id) free distinct idle same = record {
    distinct = distinct;
    idle = idle;
    ended = λ p h. refl;
    refs = λ i.
        if_elim
          (λ p.
            SameCounts ref_cnt p.lscontexts q.lscontexts
            → refs_at (if config.separate_acceptor_thread then w else q).lscontexts i ≡ 0)
          config.separate_acceptor_thread a w (λ e. λ _. rw e (free i))
          (λ e. λ same. rw e (same i ∙ free i)) same;
    valid = λ p. tt;
  }
  with_acceptor-IsTied config w a pool Chosen.out_of_range free distinct idle same = tt
  with_acceptor-IsTied config w a pool Chosen.out_of_fuel free distinct idle same = tt

  built-IsTied :
      (config : LsConfig) (memory : ℕ) (items : List ℕ)
      → Distinct items
      → TiedConstructed (construct {S = S} config memory items)
  unfolding construct
  built-IsTied config memory items distinct =
      on_workers
        (ContextPool.construct config.num_workers config.max_num_workers memory
          config.num_threads_per_worker)
        (construct-counts ref_cnt ref_cnt-IsCount config.num_workers config.max_num_workers memory
          config.num_threads_per_worker)
        (Pool.construct config.max_session_pool_size config.eager_session_pool items)
        (construct-StartsIdle config.max_session_pool_size config.eager_session_pool items distinct)
        (ContextPool.construct 1 1 memory 1)
    where
      on_workers :
          (w : ContextPool.Made)
          → ZeroCounts ref_cnt w
          → (p : Pool.Result Pool) → StartsIdle p
          → (a : ContextPool.Made)
          → TiedConstructed (elim w [
            | ContextPool.not_made e ↦ bad_contexts e
            | ContextPool.made w ↦ elim p [
              | Pool.err e ↦ bad_pool e
              | Pool.ok pool ↦ elim a [
                | ContextPool.not_made e ↦ bad_contexts e
                | ContextPool.made a ↦
                    let p = if config.separate_acceptor_thread then a else w in
                    with_acceptor config w pool a
                      (ContextPool.get_context_round_robin (length p.lscontexts) p)
              ]
            ]
          ])
      on_workers (ContextPool.not_made e) free p idle a = tt
      on_workers (ContextPool.made w) free (Pool.err e) idle a = tt
      on_workers (ContextPool.made w) free (Pool.ok pool) idle (ContextPool.not_made e) = tt
      on_workers (ContextPool.made w) free (Pool.ok pool) (distinct, idle) (ContextPool.made a) =
          let p = if config.separate_acceptor_thread then a else w in
          with_acceptor-IsTied config w a pool
            (ContextPool.get_context_round_robin (length p.lscontexts) p) free distinct idle
            (get_context_round_robin-counts ref_cnt hold-ref_cnt (length p.lscontexts) p)

  pub construct-IsTied :
      (config : LsConfig) (memory : ℕ) (items : List ℕ) (s : Server S)
      → Distinct items
      → construct config memory items ≡ constructed s
      → IsTied s
  construct-IsTied config memory items s distinct e =
      subst TiedConstructed e (built-IsTied config memory items distinct)
