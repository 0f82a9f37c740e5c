-- ===== src/Server/Built.antt =====
-- The constructor of the server of src/server.hpp.
use lserver.Prelude.{ℕ, true, none, List, [], if◌then◌else◌, length}
use lserver.Config.{LsConfig}
use lserver.ContextPool
use lserver.ContextPool.{ContextPool, Outcome, Chosen}
use lserver.Pool
use lserver.Pool.{Pool}
use lserver.SessionPool
use lserver.TriggerGuard
use lserver.Server.{Server}

pub data Constructed {ℓ} (S : Type ℓ) : Type ℓ where
  constructed : Server S → Constructed S
  bad_contexts : ContextPool.Error → Constructed S
  bad_pool : Pool.Error → Constructed S
  no_context : Constructed S

module _ {ℓ} {S : Type ℓ} where
  -- `w` are the workers, `a` is the pool of the acceptor, and `q` the one of these two that has
  -- given its context to the acceptor.
  unfoldable pub initial : LsConfig → ContextPool → Pool → ContextPool → ContextPool → Server S
  initial config w pool a q = record {
    separate_acceptor_thread = config.separate_acceptor_thread;
    workers_pool = if config.separate_acceptor_thread then w else q;
    pool = SessionPool.on_base pool;
    acceptor_pool = if config.separate_acceptor_thread then q else a;
    socket = none;
    acceptor_open = true;
    accepting = [];
    shutdown_guard = TriggerGuard.new;
    accepted_cnt = 0;
    objects = [];
  }

  unfoldable pub with_acceptor :
      LsConfig → ContextPool → Pool → ContextPool → Chosen → Constructed S
  unfolding initial
  with_acceptor config w pool a (Chosen.chosen q id) = constructed (initial config w pool a q)
  with_acceptor config w pool a Chosen.out_of_range = no_context
  with_acceptor config w pool a Chosen.out_of_fuel = no_context

  -- `items` are the sessions that an eager pool creates.
  unfoldable pub construct : LsConfig → (memory : ℕ) → (items : List ℕ) → Constructed S
  unfolding with_acceptor ContextPool.construct Pool.construct ContextPool.get_context_round_robin
  construct config memory items =
      elim (ContextPool.construct config.num_workers config.max_num_workers memory
        config.num_threads_per_worker) [
          | ContextPool.not_made e ↦ bad_contexts e
          | ContextPool.made w ↦
              elim (Pool.construct config.max_session_pool_size config.eager_session_pool items) [
                | Pool.err e ↦ bad_pool e
                | Pool.ok pool ↦ elim (ContextPool.construct 1 1 memory 1) [
                  | ContextPool.not_made e ↦ bad_contexts e
                  | ContextPool.made a ↦
                      let p = if config.separate_acceptor_thread then a else w in
                      with_acceptor config w pool a
                        (ContextPool.get_context_round_robin (length p.lscontexts) p)
                ]
              ]
        ]
