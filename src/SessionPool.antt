-- ===== src/SessionPool.antt =====
-- src/session_pool.hpp: the pool of sessions, and what it reports of their counters. `deltas` gives
-- the counters of the session at an address, which are zero in a new one. The sessions count while
-- a report is made; each atomic access is of one counter, and here a session's three are one step.
pub mod Reports
pub mod Runs
use lserver.Prelude.{
  ℕ, Bool, true, false, Option, none, some, List, [], ◌∷◌, ◌==◌, if◌then◌else◌, add_word, keys,
}
use lserver.Pool
use lserver.Pool.{Pool, PoolStats}
use lserver.Stats.{SessionStats, clear}

pub record SessionPool : Type 0 where
  pub base : Pool
  pub deltas : ℕ → SessionStats
  pub session_stats : SessionStats

unfoldable pub fetch_add : SessionStats → SessionStats → SessionStats
fetch_add s t = record {
  transactions_cnt_delta = add_word s.transactions_cnt_delta t.transactions_cnt_delta;
  bytes_received_delta = add_word s.bytes_received_delta t.bytes_received_delta;
  bytes_sent_delta = add_word s.bytes_sent_delta t.bytes_sent_delta;
}

abbrev pub set_delta : (ℕ → SessionStats) → ℕ → SessionStats → ℕ → SessionStats
set_delta deltas item s j = if item == j then s else deltas j

-- `stats_.….fetch_add` in the session at `item`.
unfoldable pub count : SessionPool → ℕ → SessionStats → SessionPool
unfolding fetch_add
count p item s = record p { deltas = set_delta p.deltas item (fetch_add (p.deltas item) s) }

-- In `transaction_started`, and where bytes have arrived or have been sent.
unfoldable pub transaction_started : SessionPool → ℕ → SessionPool
unfolding count
transaction_started p item = count p item (record clear { transactions_cnt_delta = 1 })

unfoldable pub bytes_received : SessionPool → (item n : ℕ) → SessionPool
unfolding count
bytes_received p item n = count p item (record clear { bytes_received_delta = n })

unfoldable pub bytes_sent : SessionPool → (item n : ℕ) → SessionPool
unfolding count
bytes_sent p item n = count p item (record clear { bytes_sent_delta = n })

-- The body of the loop of `get_stats`: `exchange(0)` on each counter, and the sum.
unfoldable pub collect_one : SessionPool → ℕ → SessionPool
unfolding fetch_add
collect_one p item = record p {
  deltas = set_delta p.deltas item clear;
  session_stats = fetch_add p.session_stats (p.deltas item);
}

unfoldable pub collect : SessionPool → List ℕ → SessionPool
unfolding collect_one
collect p [] = p
collect p (item ∷ items) = collect (collect_one p item) items

unfoldable pub get_stats : SessionPool → SessionPool × (PoolStats × SessionStats)
unfolding collect
get_stats p =
    let p' = collect (record p { session_stats = clear }) (keys p.base.all_items) in
    (p', (p.base.stats, p'.session_stats))

-- The constructor, over that of the base.
abbrev pub on_base : Pool → SessionPool
on_base base = record { base = base; deltas = λ _. clear; session_stats = clear }

abbrev pub empty : ℕ → SessionPool
empty max_size = on_base (Pool.empty max_size)

-- `borrow` and `put_back` of the base.
unfoldable pub borrow : SessionPool → (id item : ℕ) → SessionPool × Option ℕ
unfolding Pool.borrow
borrow p id item =
    let (base, session) = Pool.borrow p.base id item in (record p { base = base }, session)

unfoldable pub put_back : SessionPool → ℕ → SessionPool
unfolding Pool.put_back
put_back p item = record p { base = (Pool.put_back p.base item).0 }
