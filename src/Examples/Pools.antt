-- ===== src/Examples/Pools.antt =====
-- Pools of src/pool.hpp with one item, and with two that an eager constructor makes.
use lserver.Prelude.{
  ◌+◌, ◌%◌, ◌^◌, assign, emplace, ℕ, ◌≡◌, refl, ◌⊎◌, none, true, [], ◌∷◌, arith, elem, Distinct,
  lookup,
}
use lserver.Pool.{Pool, borrow, empty, destruct}
use lserver.Pool.World.{World, Reach, here, next, borrows, IsValid, lend}
use lserver.Pool.Ownership.{Reach-IsValid}
use lserver.Pool.Recover.{start, start-IsValid, destruct-covers}
use lserver.Stats.{clear}
use lserver.SessionPool
use lserver.SessionPool.{SessionPool, get_stats, bytes_received, collect, collect_one}
use lserver.SessionPool.Reports.{value, received}
use lserver.SessionPool.Runs.{
  Run, here, receives, begins, collects, ends, borrows, IsListed, reports_lem,
}

abbrev lent_out : World
lent_out = lend (start 1) (borrow (start 1).pool 3 7)

borrowed : Reach (start 1) lent_out
unfolding lookup
borrowed = next here (borrows 3 7 (refl, omega arith))

-- One item, lent under the id 3, and a client that waits.
abbrev awaited : Pool
awaited = record (empty 1) { all_items = (7, 3) ∷ []; callback_active = true }

Reach-IsValid_example : IsValid lent_out
Reach-IsValid_example = Reach-IsValid borrowed (start-IsValid 1)

destruct-covers_example :
    Distinct (destruct lent_out.pool)
    × ((x : ℕ)
        → (elem x lent_out.lent ≡ true) ⊎ (elem x lent_out.pool.pool ≡ true)
        → elem x (destruct lent_out.pool) ≡ true)
destruct-covers_example = destruct-covers borrowed

abbrev one_lent : SessionPool
one_lent = (SessionPool.borrow (SessionPool.empty 0) 3 7).0

-- A session counts 100 bytes, a report visits it, and it counts 28 more before the report ends.
abbrev visited : SessionPool
visited = collect_one (record (bytes_received one_lent 7 100) { session_stats = clear }) 7

abbrev one_served : SessionPool
one_served = bytes_received visited 7 28

one-IsListed : IsListed one_lent 7
one-IsListed = unfold SessionPool.borrow borrow elem assign emplace in refl

visited-IsListed : IsListed visited 7
visited-IsListed =
    unfold SessionPool.borrow borrow elem assign emplace collect_one bytes_received in refl

served :
    Run received
      (SessionPool.empty 0)
      128
      (0 + value received one_served.session_stats)
      none
      one_served
unfolding SessionPool.borrow borrow elem assign emplace bytes_received
served = ends (
    receives 7 28 (collects (begins (receives 7 100 (borrows 3 7 here) one-IsListed)))
      visited-IsListed)

reports_lem_example :
    (value received one_served.session_stats + value received (get_stats one_served).1.1) % 2 ^ 64
    ≡ 128
unfolding get_stats bytes_received SessionPool.borrow assign emplace
reports_lem_example = reports_lem served
