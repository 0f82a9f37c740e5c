-- ===== src/Pool/Returns.antt =====
-- What a returned item does to a pool of src/pool.hpp and its clients.
use lserver.Prelude.{
  ℕ, ◌≡◌, inl, inr, true, false, Bool-cases, Option-cases, some, arith, elem, erase, lookup,
  lookup-assign, length-assign, elem-erase, erase-Distinct, length-erase,
}
use lserver.Pool.{put_back, poi_invalid}
use lserver.Pool.World.{World, serve, IsValid}

-- A returned item goes to the waiting client, or back on the stack.
put_back_served :
    (w : World) (item : ℕ)
    → IsValid w
    → elem item w.lent ≡ true
    → w.pool.callback_active ≡ true
    → IsValid (serve (erase item w.lent) (put_back w.pool item))
unfolding put_back elem
put_back_served w item v h active =
    rw (active, put_back)
      (record {
        distinct_pool = v.distinct_pool;
        distinct_lent = (
          ground (arith, elem-erase item item w.lent v.distinct_lent),
          erase-Distinct item w.lent v.distinct_lent,
        );
        apart = λ x k. absurd (ground (arith, v.waiting active));
        pooled = λ x k. v.pooled x k;
        known = λ x k.
            ground (arith, v.known x, v.known item, elem-erase x item w.lent v.distinct_lent);
        in_flight = omega (arith, v.in_flight, length-erase item w.lent h);
        items = omega (arith, v.items, length-erase item w.lent h);
        small = v.small;
        limited = v.limited;
        waiting = λ e. absurd (cc e);
      })

put_back_stacked :
    (w : World) (item id : ℕ)
    → IsValid w
    → elem item w.lent ≡ true
    → lookup item w.pool.all_items ≡ some id
    → w.pool.callback_active ≡ false
    → IsValid (serve (erase item w.lent) (put_back w.pool item))
unfolding put_back elem
put_back_stacked w item id v h found idle =
    rw (idle, put_back)
      (record {
        distinct_pool = (ground (arith, v.apart item), v.distinct_pool);
        distinct_lent = erase-Distinct item w.lent v.distinct_lent;
        apart = λ x k. ground (arith, v.apart x, elem-erase x item w.lent v.distinct_lent);
        pooled =
            λ x k. ground (arith, v.pooled x, lookup-assign item x poi_invalid w.pool.all_items);
        known = λ x k. ground (
          arith,
          v.known x,
          lookup-assign item x poi_invalid w.pool.all_items,
          elem-erase x item w.lent v.distinct_lent,
        );
        in_flight = omega (arith, v.in_flight, v.small, v.items, length-erase item w.lent h);
        items = omega (
          arith,
          v.items,
          length-erase item w.lent h,
          length-assign item poi_invalid id w.pool.all_items found,
        );
        small = omega (arith, v.small, length-assign item poi_invalid id w.pool.all_items found);
        limited = λ k.
            omega (arith, v.limited k, length-assign item poi_invalid id w.pool.all_items found);
        waiting = λ e. absurd (cc e);
      })

pub put_back-IsValid :
    (w : World) (item : ℕ)
    → IsValid w
    → elem item w.lent ≡ true
    → IsValid (serve (erase item w.lent) (put_back w.pool item))
put_back-IsValid w item v h = elim (Bool-cases w.pool.callback_active) [
  | inl active ↦ put_back_served w item v h active
  | inr idle ↦ elim (Option-cases (lookup item w.pool.all_items)) [
    | inl missing ↦ absurd (v.known item h missing)
    | inr (id, found) ↦ put_back_stacked w item id v h found idle
  ]
]
