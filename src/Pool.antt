-- ===== src/Pool.antt =====
-- src/pool.hpp: the CRTP base of every pool. Items and callbacks are the numbers of their
-- addresses. `create` of the derived class enters as the argument `item`, the address of the item
-- that it would return; a method locks the mutex for as long as it runs, so it is one step. A
-- call of a callback is part of the result.
pub mod Listing
pub mod Stack
pub mod World
pub mod Returns
pub mod Ownership
pub mod Recover
use lserver.Prelude.{
  ℕ, zero, suc, ◌-◌, ◌^◌, ◌<◌, Bool, true, false, not, ◌||◌, Option, none, some, List, [], ◌∷◌, ltb,
  ◌==◌, if◌then◌else◌, add_word, sub_word, length, is_empty, Map, lookup, assign, emplace, keys,
}

-- `POI_INVALID`
abbrev pub poi_invalid : ℕ
poi_invalid = 2 ^ 64 - 1

pub record PoolStats : Type 0 where
  pub num_items_total : ℕ
  pub num_items_in_flight : ℕ

pub record Pool : Type 0 where
  pub max_size : ℕ
  pub pool : List ℕ  -- the top of the stack first
  pub callback : ℕ
  pub callback_active : Bool
  pub all_items : Map ℕ
  pub stats : PoolStats
  pub open stats use *

-- A call of the waiting callback with an item.
pub record Served : Type 0 where
  pub callback : ℕ
  pub item : ℕ

pub data Error : Type 0 where
  invalid_args waiting_pool : Error

pub data Result {ℓ} (A : Type ℓ) : Type ℓ where
  ok : A → Result A
  err : Error → Result A

pub subscribe : Pool → ℕ → Pool
subscribe p item = record p {
  all_items = emplace item 0 p.all_items;
  stats = record {
    num_items_total = add_word p.num_items_total 1;
    num_items_in_flight = add_word p.num_items_in_flight 1;
  };
}

pub insert : Pool → ℕ → Pool × Option Served
insert p item =
    if p.callback_active
    then (
      record p { callback_active = false },
      some (record { callback = p.callback; item = item }),
    )
    else (
      record p {
        pool = item ∷ p.pool;
        all_items = assign item poi_invalid p.all_items;
        stats = record {
          num_items_total = p.num_items_total;
          num_items_in_flight = sub_word p.num_items_in_flight 1;
        };
      },
      none,
    )

pub add : Pool → ℕ → Pool
unfolding subscribe insert
add p item =
    let stats : PoolStats = record {
      num_items_total = add_word p.num_items_total 1;
      num_items_in_flight = p.num_items_in_flight;
    } in
    (insert (subscribe (record p { stats = stats }) item) item).0

-- What `try_borrow` takes off the stack or creates, before the item gets its id.
pub take_or_create : List ℕ → Pool → ℕ → Pool × Option ℕ
unfolding subscribe
take_or_create (top ∷ rest) p item = (
  record p {
    pool = rest;
    stats = record {
      num_items_total = p.num_items_total;
      num_items_in_flight = add_word p.num_items_in_flight 1;
    };
  },
  some top,
)
take_or_create [] p item =
    if p.max_size == 0 || ltb p.num_items_in_flight p.max_size
    then (subscribe p item, some item)
    else (p, none)

pub label : ℕ → Pool × Option ℕ → Pool × Option ℕ
label id (p, none) = (p, none)
label id (p, some item) = (record p { all_items = assign item id p.all_items }, some item)

unfoldable pub try_borrow : Pool → (id item : ℕ) → Pool × Option ℕ
unfolding take_or_create label
try_borrow p id item = label id (take_or_create p.pool p item)

-- `borrow(id)`: `nullptr` is `none`.
unfoldable pub borrow : Pool → (id item : ℕ) → Pool × Option ℕ
unfolding try_borrow
borrow p id item = try_borrow p id item

-- What `borrow(callback, id)` does with the result of `try_borrow`.
wait_or_serve : ℕ → Pool × Option ℕ → Result (Pool × Option Served)
wait_or_serve callback (p, some item) = ok (p, some (record { callback = callback; item = item }))
wait_or_serve callback (p, none) =
    if p.callback_active
    then err waiting_pool
    else ok (record p { callback = callback; callback_active = true }, none)

unfoldable pub borrow_async : Pool → (callback id item : ℕ) → Result (Pool × Option Served)
unfolding wait_or_serve try_borrow
borrow_async p callback id item = wait_or_serve callback (try_borrow p id item)

-- The `assert` that an item is in flight is not evaluated, as in a build with `NDEBUG`.
unfoldable pub put_back : Pool → ℕ → Pool × Option Served
unfolding insert
put_back p item = insert p item

abbrev pub empty : ℕ → Pool
empty max_size = record {
  max_size = max_size;
  pool = [];
  callback = 0;
  callback_active = false;
  all_items = [];
  stats = record { num_items_total = 0; num_items_in_flight = 0 };
}

-- The loop of the constructor over the items that `create` returns, in order.
pub add_all : Pool → List ℕ → Pool
add_all p [] = p
add_all p (item ∷ items) = add_all (add p item) items

-- The constructor. An eager pool is given the `max_size` items that it creates.
unfoldable pub construct : ℕ → (eager : Bool) → List ℕ → Result Pool
unfolding add_all add
construct max_size false items = ok (empty max_size)
construct max_size true items =
    if max_size == 0 then err invalid_args else ok (add_all (empty max_size) items)

-- The items of which `recover` calls `finalize`, in the order of the map.
finalized : ℕ → Map ℕ → List ℕ
finalized id [] = []
finalized id ((item, poi) ∷ items) =
    let rest = finalized id items in if poi == id then item ∷ rest else rest

unfoldable pub recover : Pool → ℕ → List ℕ
unfolding finalized
recover p id = finalized id p.all_items

-- The items that the destructor destroys.
unfoldable pub destruct : Pool → List ℕ
destruct p = keys p.all_items

unfoldable pub get_size : Pool → ℕ
get_size p = length p.all_items

abbrev pub get_in_flight_cnt : Pool → ℕ
get_in_flight_cnt p = p.num_items_in_flight
