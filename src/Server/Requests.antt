-- ===== src/Server/Requests.antt =====
-- What an operator asks of the server of src/server.hpp: its contexts and its statistics.
use lserver.Prelude.{ℕ, List}
use lserver.ContextPool
use lserver.ContextPool.{Outcome}
use lserver.LsContext
use lserver.SessionPool
use lserver.Stats.{LsStats}
use lserver.Server.{Server}

-- A call that may throw what the pool of the workers throws.
pub data Called {ℓ} (S : Type ℓ) (A : Type 0) : Type ℓ where
  returned : Server S → A → Called S A
  threw : Server S → ContextPool.Error → Called S A

module _ {ℓ} {S : Type ℓ} where
  unfoldable pub call : {A : Type 0} → Server S → Outcome A → Called S A
  call s (Outcome.returned p a) = returned (record s { workers_pool = p }) a
  call s (Outcome.threw p e) = threw (record s { workers_pool = p }) e

  unfoldable pub add_context : Server S → (memory thread_cnt : ℕ) → Called S (Unit {0})
  unfolding call ContextPool.add_context
  add_context s memory thread_cnt =
      call s (ContextPool.add_context s.workers_pool memory thread_cnt)

  unfoldable pub deactivate_context : Server S → (context_index : ℕ) → Called S ℕ
  unfolding call ContextPool.deactivate_context
  deactivate_context s context_index =
      call s (ContextPool.deactivate_context s.workers_pool context_index)

  unfoldable pub get_server_info : Server S → List LsContext.ContextInfo
  unfolding ContextPool.get_contexts_info
  get_server_info s = ContextPool.get_contexts_info s.workers_pool

  -- The sample holds references to the counters; here it has their values as they are then, and
  -- `time` is what the clock says.
  unfoldable pub get_stats : Server S → (time : ℕ) → Server S × LsStats
  unfolding SessionPool.get_stats
  get_stats s time =
      let (pool, (pool_stats, session_stats)) = SessionPool.get_stats s.pool in
      (
        record s { pool = pool },
        record {
          accepted_cnt = s.accepted_cnt;
          num_items_total = pool_stats.num_items_total;
          num_items_in_flight = pool_stats.num_items_in_flight;
          session_stats = session_stats;
          time = time;
        },
      )
