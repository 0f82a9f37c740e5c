-- ===== src/Pool/Listing.antt =====
-- The operations of src/pool.hpp write its map of items with two operations only.
use lserver.Prelude.{ℕ, List, [], ◌∷◌, Map, assign, emplace, Option, none, some, arith}
use lserver.Pool.{
  Pool, borrow, try_borrow, take_or_create, label, subscribe, put_back, insert, poi_invalid,
}

module _ {ℓ} (P : Map ℕ → Type ℓ) (assigns : (x v : ℕ) (m : Map ℕ) → P m → P (assign x v m))
    (emplaces : (x v : ℕ) (m : Map ℕ) → P m → P (emplace x v m)) where
  take_or_create_map :
      (xs : List ℕ) (p : Pool) (item : ℕ) → P p.all_items → P (take_or_create xs p item).0.all_items
  unfolding take_or_create subscribe
  take_or_create_map [] p item h = ground (arith, emplaces item 0 p.all_items h)
  take_or_create_map (x ∷ xs) p item h = h

  label_map : (id : ℕ) (r : Pool × Option ℕ) → P r.0.all_items → P (label id r).0.all_items
  unfolding label
  label_map id (p, none) h = h
  label_map id (p, some x) h = assigns x id p.all_items h

  pub borrow_map : (p : Pool) (id item : ℕ) → P p.all_items → P (borrow p id item).0.all_items
  unfolding borrow try_borrow
  borrow_map p id item h =
      label_map id (take_or_create p.pool p item) (take_or_create_map p.pool p item h)

  pub put_back_map : (p : Pool) (item : ℕ) → P p.all_items → P (put_back p item).0.all_items
  unfolding put_back insert
  put_back_map p item h = ground (arith, assigns item poi_invalid p.all_items h)
