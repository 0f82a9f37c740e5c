-- ===== src/Server/Construct.antt =====
-- The constructor of the server of src/server.hpp.
use lserver.Prelude.{
  ℕ, ◌≤◌, ◌≡◌, refl, ap, ◌∙◌, sym, subst, inl, inr, true, false, Bool-cases, List, [], ◌∷◌, arith,
  if_elim, if◌then◌else◌, length,
}
use lserver.Config.{LsConfig}
use lserver.ContextPool
use lserver.ContextPool.{ContextPool, Outcome, Chosen}
use lserver.ContextPool.Holds.{holds_at, hold_cnt, construct-holds}
use lserver.ContextPool.Counts.{ZeroCounts}
use lserver.ContextPool.Reconfigure.{pool_of, made-IsValid, get_context_round_robin_returns}
use lserver.LsContext
use lserver.Pool
use lserver.Pool.{Pool}
use lserver.Server.{Server}
use lserver.Server.Built.{construct, Constructed, constructed, initial, with_acceptor}
use lserver.Server.Holds.{IsHeld, occurrences, take_context}

-- The pool of the acceptor, of one context with one thread.
abbrev one_context : ℕ → ContextPool
one_context memory = pool_of (ContextPool.construct 1 1 memory 1)

one_context_returned :
    (memory : ℕ) → ContextPool.construct 1 1 memory 1 ≡ ContextPool.made (one_context memory)
unfolding ContextPool.construct ContextPool.add_context LsContext.set_num_threads
one_context_returned memory = refl

abbrev next_of : ContextPool → Chosen
next_of p = ContextPool.get_context_round_robin (length p.lscontexts) p

no_holds :
    (size max_size memory n : ℕ) (w : ContextPool)
    → ContextPool.construct size max_size memory n ≡ ContextPool.made w
    → (i : ℕ) → holds_at w.lscontexts i ≡ 0
no_holds size max_size memory n w e i =
    subst (ZeroCounts hold_cnt) e (construct-holds size max_size memory n) i

module _ {ℓ} {S : Type ℓ} where
  -- The server is there, has no accept under way, and holds `own` for its acceptor.
  abbrev pub Starting : List ℕ → Constructed S → Type ℓ
  Starting own r = (s : Server S) × (r ≡ constructed s) × (s.accepting ≡ []) × IsHeld own s []

  initial-IsHeld :
      (config : LsConfig) (w : ContextPool) (pool : Pool) (a q : ContextPool) (own : List ℕ)
      → length own ≤ 1
      → (config.separate_acceptor_thread ≡ true
          → ContextPool.Invariant.IsValid w
            × ((i : ℕ) → holds_at w.lscontexts i ≡ occurrences i own))
      → (config.separate_acceptor_thread ≡ false
          → ContextPool.Invariant.IsValid q
            × ((i : ℕ) → holds_at q.lscontexts i ≡ occurrences i own))
      → IsHeld own (initial {S = S} config w pool a q) []
  unfolding initial
  initial-IsHeld config w pool a q own few with_own without =
      let (valid, holds) =
        if_elim
          (λ p.
            ContextPool.Invariant.IsValid p
            × ((i : ℕ) → holds_at p.lscontexts i ≡ occurrences i own))
          config.separate_acceptor_thread w q with_own without in
      record { few = few; armed = refl; valid = valid; holds = λ i. omega (arith, holds i) }

  construct-with_acceptor :
      (config : LsConfig) (memory : ℕ) (items : List ℕ) (w : ContextPool) (pool : Pool)
      → ContextPool.construct config.num_workers config.max_num_workers memory
          config.num_threads_per_worker
        ≡ ContextPool.made w
      → Pool.construct config.max_session_pool_size config.eager_session_pool items ≡ Pool.ok pool
      → construct {S = S} config memory items
        ≡ with_acceptor config w pool
            (one_context memory)
            (next_of (if config.separate_acceptor_thread then one_context memory else w))
  unfolding construct
  construct-with_acceptor config memory items w pool e e' =
      rw (e, e', one_context_returned memory, construct) refl

  separate-Starting :
      (config : LsConfig) (memory : ℕ) (w : ContextPool) (pool : Pool)
      → ContextPool.Invariant.IsValid w
      → ((i : ℕ) → holds_at w.lscontexts i ≡ 0)
      → config.separate_acceptor_thread ≡ true
      → Starting [] (
          with_acceptor config w pool
            (one_context memory)
            (next_of (if config.separate_acceptor_thread then one_context memory else w)))
  unfolding with_acceptor
  separate-Starting config memory w pool valid free separate =
      let p = if config.separate_acceptor_thread then one_context memory else w in
      let pv : ContextPool.Invariant.IsValid p =
        if_elim ContextPool.Invariant.IsValid config.separate_acceptor_thread (one_context memory) w
          (λ _. made-IsValid memory 1 (omega arith) (omega arith) 1 1 (omega arith) (omega arith))
          (λ _. valid) in
      let (k, serves) = get_context_round_robin_returns p pv in
      (
        _,
        ap (with_acceptor config w pool (one_context memory)) serves.result,
        unfold initial in refl,
        initial-IsHeld config w pool (one_context memory) _ [] (omega arith) (λ _. (valid, free))
            (λ shared. absurd (ground (arith, separate, shared))),
      )

  shared-Starting :
      (config : LsConfig) (memory : ℕ) (w : ContextPool) (pool : Pool)
      → ContextPool.Invariant.IsValid w
      → ((i : ℕ) → holds_at w.lscontexts i ≡ 0)
      → config.separate_acceptor_thread ≡ false
      → (id : ℕ) × Starting (id ∷ []) (
          with_acceptor config w pool
            (one_context memory)
            (next_of (if config.separate_acceptor_thread then one_context memory else w)))
  unfolding with_acceptor initial
  shared-Starting config memory w pool valid free shared =
      let a = one_context memory in
      let p = if config.separate_acceptor_thread then a else w in
      let same : p ≡ w =
        if_elim (λ q. q ≡ w) config.separate_acceptor_thread a w
          (λ separate. absurd (ground (arith, separate, shared))) (λ _. refl) in
      let server : Server S = record (initial config w pool a w) { workers_pool = w } in
      let idle : IsHeld [] server [] = record {
        few = omega arith;
        armed = refl;
        valid = valid;
        holds = free;
      } in
      let (q, id, e, v) = take_context [] server idle in
      (
        id,
        (
          _,
          ap (λ t. with_acceptor config w pool a (next_of t)) same
              ∙ ap (with_acceptor config w pool a) e,
          refl,
          initial-IsHeld config w pool a q (id ∷ []) (omega arith)
              (λ separate. absurd (ground (arith, separate, shared)))
              (λ _. (v.valid, λ i. omega (arith, v.holds i))),
        ),
      )

  -- With its pools constructed and a valid pool of workers, the server is constructed.
  pub construct-Starting :
      (config : LsConfig) (memory : ℕ) (items : List ℕ) (w : ContextPool) (pool : Pool)
      → ContextPool.construct config.num_workers config.max_num_workers memory
          config.num_threads_per_worker
        ≡ ContextPool.made w
      → Pool.construct config.max_session_pool_size config.eager_session_pool items ≡ Pool.ok pool
      → ContextPool.Invariant.IsValid w
      → (own : List ℕ) × (config.separate_acceptor_thread ≡ true → own ≡ [])
        × Starting own (construct config memory items)
  construct-Starting config memory items w pool e e' valid =
      let free =
        no_holds config.num_workers config.max_num_workers memory config.num_threads_per_worker w
          e in
      let built = sym (construct-with_acceptor config memory items w pool e e') in
      elim (Bool-cases config.separate_acceptor_thread) [
        | inl separate ↦ (
          [],
          λ _. refl,
          subst (Starting []) built (separate-Starting config memory w pool valid free separate),
        )
        | inr shared ↦
            let (id, h) = shared-Starting config memory w pool valid free shared in
            (
              id ∷ [],
              λ separate. absurd (ground (arith, separate, shared)),
              subst (Starting (id ∷ [])) built h,
            )
      ]
