-- ===== src/LsContext.antt =====
-- src/lscontext.hpp and the strand pool of src/strand_pool.hpp: an `asio::io_context` with its
-- threads. The reference counts are atomic words. `wait` returns when the threads have ended,
-- which asio promises once no work is left; that it does return is not modelled.
pub mod Lifecycle
use lserver.Prelude.{
  ℕ, ◌+◌, Bool, true, false, not, ◌&&◌, Option, none, ltb, ◌==◌, if◌then◌else◌, add_word, sub_word,
}
use lserver.Pool
use lserver.Pool.{Pool}

pub record LsContext : Type 0 where
  pub threads : ℕ  -- `threads_.size()`
  pub running : ℕ  -- threads that have not been joined
  pub io_stopped : Bool
  pub work_guard : Bool
  pub num_threads : ℕ
  pub strand_pool : Pool
  pub ref_cnt : ℕ
  pub hold_cnt : ℕ
  pub active : Bool

pub record ContextInfo : Type 0 where
  pub context_index : ℕ
  pub threads_cnt : ℕ
  pub active_sessions_cnt : ℕ
  pub strand_pool_size : ℕ
  pub strand_pool_flight : ℕ
  pub active : Bool

-- The messages of the `std::logic_error`s.
pub data Error : Type 0 where
  no_threads too_many_threads : Error

-- `EBUSY`
abbrev pub ebusy : ℕ
ebusy = 16

-- The constructor leaves `num_threads_` with what the memory held.
unfoldable pub construct : ℕ → LsContext
construct memory = record {
  threads = 0;
  running = 0;
  io_stopped = false;
  work_guard = true;
  num_threads = memory;
  strand_pool = Pool.empty 0;
  ref_cnt = 0;
  hold_cnt = 0;
  active = true;
}

pub data Checked : Type 0 where
  valid : LsContext → Checked
  invalid : Error → Checked

unfoldable pub set_num_threads : LsContext → ℕ → Checked
set_num_threads c num_threads =
    if ltb num_threads 1
    then invalid no_threads
    else if ltb 64 num_threads
    then invalid too_many_threads
    else valid (record c { num_threads = num_threads })

unfoldable pub run_threads : LsContext → LsContext
run_threads c = record c {
  threads = c.threads + c.num_threads;
  running = c.running + c.num_threads;
}

unfoldable pub wait : LsContext → LsContext
wait c = record c { running = 0 }

unfoldable pub removable : LsContext → ℕ
removable c = if ltb 0 c.hold_cnt then ebusy else 0

-- The status, with the context after the call.
unfoldable pub stop : LsContext → (force : Bool) → LsContext × ℕ
unfolding removable wait
stop c force =
    let rc = removable c in
    if ltb 0 rc && not force then (c, rc) else (
      record (wait (record c { active = false; work_guard = false })) {
        io_stopped = false;
        strand_pool = Pool.empty 0;
      },
      0,
    )

unfoldable pub ref : LsContext → LsContext
ref c = record c { ref_cnt = add_word c.ref_cnt 1 }

-- The `assert` that the count is positive is not evaluated, here and in `unhold`, as in a build with
-- `NDEBUG`: the count wraps around.
unfoldable pub deref : LsContext → LsContext
deref c = record c { ref_cnt = sub_word c.ref_cnt 1 }

unfoldable pub hold : LsContext → LsContext
hold c = record c { hold_cnt = add_word c.hold_cnt 1 }

unfoldable pub unhold : LsContext → LsContext
unhold c = record c { hold_cnt = sub_word c.hold_cnt 1 }

unfoldable pub reusable : LsContext → Bool
reusable c = not c.active && c.ref_cnt == 0

unfoldable pub reuse : LsContext → ℕ → LsContext
unfolding run_threads
reuse c threads_cnt =
    run_threads
      (record c { threads = 0; work_guard = true; active = true; num_threads = threads_cnt })

-- `item` is the strand that the pool would create.
unfoldable pub borrow_strand : LsContext → (item : ℕ) → LsContext × Option ℕ
unfolding Pool.borrow
borrow_strand c item =
    if c.num_threads == 1
    then (c, none)
    else (let (pool, strand) = Pool.borrow c.strand_pool 0 item in
        (record c { strand_pool = pool }, strand))

unfoldable pub put_strand : LsContext → ℕ → LsContext
put_strand c strand = record c { strand_pool = (Pool.put_back c.strand_pool strand).0 }

unfoldable pub get_context_info : LsContext → ContextInfo
get_context_info c = record {
  context_index = 0;
  threads_cnt = c.threads;
  active_sessions_cnt = c.ref_cnt;
  strand_pool_size = Pool.get_size c.strand_pool;
  strand_pool_flight = Pool.get_in_flight_cnt c.strand_pool;
  active = c.active;
}
