-- ===== src/ContextPool.antt =====
-- src/io_context_pool.hpp and src/io_context_pool.cpp: the contexts of a server. `next_context_` is
-- an index, `lscontexts_.capacity()` the size that the constructor reserves; each method locks
-- the mutex for as long as it runs. A method that throws leaves the pool in the state given.
pub mod Counting
pub mod Invariant
pub mod RoundRobin
pub mod Reconfigure
pub mod Counts
pub mod Holds
pub mod References
use lserver.Prelude.{
  ℕ, zero, suc, ◌+◌, Bool, true, false, Option, none, some, List, [], ◌∷◌, ◌++◌, map, ltb, leb,
  ◌==◌, if◌then◌else◌, length, get_elem?, set,
}
use lserver.LsContext
use lserver.LsContext.{LsContext}

pub record ContextPool : Type 0 where
  pub lscontexts : List LsContext
  pub capacity : ℕ
  pub next_context : ℕ

pub data Error : Type 0 where
  max_contexts bad_index not_active last_active : Error
  threads : LsContext.Error → Error

pub data Outcome {ℓ} (A : Type ℓ) : Type ℓ where
  returned : ContextPool → A → Outcome A
  threw : ContextPool → Error → Outcome A

-- The constructor throws, or there is a pool.
pub data Made : Type 0 where
  made : ContextPool → Made
  not_made : Error → Made

-- What `get_context_round_robin` hands out, with the pool after it; `out_of_range` is the use of
-- an iterator that points at no context.
pub data Chosen : Type 0 where
  chosen : ContextPool → (id : ℕ) → Chosen
  out_of_range : Chosen
  out_of_fuel : Chosen

abbrev pub wrap : ℕ → ℕ → ℕ
wrap size i = if i == size then 0 else i

-- `while (true)`, a round for each unit of fuel.
unfoldable pub get_context_round_robin : ℕ → ContextPool → Chosen
get_context_round_robin zero p = out_of_fuel
get_context_round_robin (suc fuel) p =
    let id = p.next_context in
    let next = record p { next_context = wrap (length p.lscontexts) (id + 1) } in
    elim (get_elem? p.lscontexts id) [
      | none ↦ out_of_range
      | some c ↦ elim c.active [
        | true ↦ chosen (record next { lscontexts = set p.lscontexts id (LsContext.hold c) }) id
        | false ↦ get_context_round_robin fuel next
      ]
    ]

-- The loop of `add_context` over the contexts: the first that can be reused.
unfoldable pub reuse_first : List LsContext → ℕ → Option (List LsContext)
reuse_first [] num_threads = none
reuse_first (c ∷ cs) num_threads =
    let rest = reuse_first cs num_threads in
    if LsContext.reusable c
    then some (LsContext.reuse c num_threads ∷ cs)
    else elim rest [ none ↦ none | some cs' ↦ some (c ∷ cs') ]

-- `emplace_back`, `set_num_threads` and `run_threads`: the context stands in the vector before its
-- thread count is checked. `memory` is what the new context's `num_threads_` starts with.
append_context : ContextPool → (memory num_threads : ℕ) → Outcome (Unit {0})
append_context p memory num_threads =
    let c = LsContext.construct memory in
    elim (LsContext.set_num_threads c num_threads) [
      | LsContext.valid c' ↦
          returned (record p { lscontexts = p.lscontexts ++ LsContext.run_threads c' ∷ [] }) tt
      | LsContext.invalid e ↦ threw (record p { lscontexts = p.lscontexts ++ c ∷ [] }) (threads e)
    ]

unfoldable pub add_context : ContextPool → (memory num_threads : ℕ) → Outcome (Unit {0})
unfolding reuse_first append_context
add_context p memory num_threads = elim (reuse_first p.lscontexts num_threads) [
  | some cs ↦ returned (record p { lscontexts = cs }) tt
  | none ↦
      if length p.lscontexts == p.capacity
      then threw p max_contexts
      else append_context p memory num_threads
]

pub active_count : List LsContext → ℕ
active_count [] = 0
active_count (c ∷ cs) = let rest = active_count cs in if c.active then suc rest else rest

unfoldable pub active_contexts_count : ContextPool → ℕ
unfolding active_count
active_contexts_count p = active_count p.lscontexts

unfoldable pub deactivate_context : ContextPool → (index : ℕ) → Outcome ℕ
unfolding active_contexts_count
deactivate_context p index = elim (get_elem? p.lscontexts index) [
  | none ↦ threw p bad_index
  | some c ↦
      if c.active
      then (if ltb (active_contexts_count p) 2
          then threw p last_active
          else (let (c', rc) = LsContext.stop c false in
              returned (record p { lscontexts = set p.lscontexts index c' }) rc))
      else threw p not_active
]

unfoldable pub stop : ContextPool → ContextPool
stop p = record p { lscontexts = map (λ c. (LsContext.stop c true).0) p.lscontexts }

unfoldable pub wait : ContextPool → ContextPool
wait p = record p { lscontexts = map LsContext.wait p.lscontexts }

unfoldable pub get_contexts_info : ContextPool → List LsContext.ContextInfo
get_contexts_info p = map LsContext.get_context_info p.lscontexts

-- The constructor's loop, and the constructor: it fails as soon as `add_context` does, and then
-- there is no pool. `next_context_` is set after the loop; before it the iterator points at nothing,
-- which no `add_context` asks of it.
add_contexts : ContextPool → (count memory thread_multiplier : ℕ) → Outcome (Unit {0})
add_contexts p zero memory thread_multiplier = returned p tt
add_contexts p (suc count) memory thread_multiplier =
    elim (add_context p memory thread_multiplier) [
      | returned q _ ↦ add_contexts q count memory thread_multiplier
      | threw q e ↦ threw q e
    ]

unfoldable pub construct : (pool_size max_pool_size memory thread_multiplier : ℕ) → Made
unfolding add_contexts
construct pool_size max_pool_size memory thread_multiplier =
    let reserved : ContextPool = record {
      lscontexts = [];
      capacity = max_pool_size;
      next_context = memory;
    } in
    elim (add_contexts reserved pool_size memory thread_multiplier) [
      | returned p _ ↦ made (record p { next_context = 0 })
      | threw p e ↦ not_made e
    ]
