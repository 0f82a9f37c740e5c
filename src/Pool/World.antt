-- ===== src/Pool/World.antt =====
-- A pool of src/pool.hpp together with its clients: `lent` is who holds what, which the code does
-- not record. A client returns only an item that it holds; `create` returns an address that no
-- item of the pool has.
use lserver.Prelude.{
  ℕ, ◌+◌, ◌^◌, ◌≤◌, ◌<◌, ◌≡◌, ◌≢◌, true, false, Option, none, some, List, [], ◌∷◌, length, elem,
  erase, Distinct, lookup,
}
use lserver.Pool.{Pool, Served, Result, ok, err, borrow, borrow_async, put_back, poi_invalid}

pub record World : Type 0 where
  pub pool : Pool
  pub lent : List ℕ

abbrev pub IsFresh : World → ℕ → Type 0
IsFresh w item = (lookup item w.pool.all_items ≡ none) × (length w.pool.all_items + 1 < 2 ^ 64)

abbrev pub lend : World → Pool × Option ℕ → World
lend w (q, none) = record { pool = q; lent = w.lent }
lend w (q, some item) = record { pool = q; lent = item ∷ w.lent }

abbrev pub serve : List ℕ → Pool × Option Served → World
serve lent (q, none) = record { pool = q; lent = lent }
serve lent (q, some s) = record { pool = q; lent = s.item ∷ lent }

abbrev pub attempt : World → Result (Pool × Option Served) → World
attempt w (ok r) = serve w.lent r
attempt w (err e) = w

pub data Step (w : World) : World → Type 0 where
  borrows : (id item : ℕ) → IsFresh w item → Step w (lend w (borrow w.pool id item))
  awaits :
      (callback id item : ℕ)
      → IsFresh w item
      → Step w (attempt w (borrow_async w.pool callback id item))
  returns :
      (item : ℕ)
      → elem item w.lent ≡ true
      → Step w (serve (erase item w.lent) (put_back w.pool item))

pub data Reach (v : World) : World → Type 0 where
  here : Reach v v
  next : {w u : World} → Reach v w → Step w u → Reach v u

-- The items that are lent are apart from those on the stack, and both are counted.
pub record IsValid (w : World) : Type 0 where
  pub distinct_pool : Distinct w.pool.pool
  pub distinct_lent : Distinct w.lent
  pub apart : (x : ℕ) → elem x w.pool.pool ≡ true → elem x w.lent ≡ false
  pub pooled : (x : ℕ) → elem x w.pool.pool ≡ true → lookup x w.pool.all_items ≡ some poi_invalid
  pub known : (x : ℕ) → elem x w.lent ≡ true → lookup x w.pool.all_items ≢ none
  pub in_flight : w.pool.num_items_in_flight ≡ length w.lent
  pub items : length w.pool.all_items ≡ length w.pool.pool + length w.lent
  pub small : length w.pool.all_items < 2 ^ 64
  pub limited : 0 < w.pool.max_size → length w.pool.all_items ≤ w.pool.max_size
  pub waiting : w.pool.callback_active ≡ true → w.pool.pool ≡ []
