-- ===== src/Pool/Ownership.antt =====
-- No item of a pool of src/pool.hpp is ever held by two clients, or held while it is on the stack.
use lserver.Prelude.{
  ℕ, ◌+◌, ◌≡◌, refl, ◌⊎◌, inl, inr, true, false, Bool, Bool-cases, sym, subst, ap, ◌∙◌, ==_refl,
  ◌==◌, ltb, ◌||◌, none, some, List, [], ◌∷◌, arith, length, elem, lookup, assign, emplace,
  lookup-assign, lookup-emplace, length-assign, length-emplace,
}
use lserver.Pool.{
  wait_or_serve, waiting_pool, Pool, ok, err, borrow, borrow_async, poi_invalid, try_borrow,
}
use lserver.Pool.World.{
  World, IsFresh, lend, attempt, Step, borrows, awaits, returns, Reach, here, next, IsValid,
}
use lserver.Pool.Returns.{put_back-IsValid}

lend_top :
    (w : World) (id item top : ℕ) (rest : List ℕ)
    → IsValid w
    → w.pool.pool ≡ top ∷ rest
    → IsValid (lend w (try_borrow w.pool id item))
unfolding try_borrow elem
lend_top w id item top rest v e =
    rw (e, try_borrow)
      (record {
        distinct_pool = ground (arith, v.distinct_pool);
        distinct_lent = (ground (arith, v.apart top), v.distinct_lent);
        apart = λ x k. ground (arith, v.apart x, v.distinct_pool);
        pooled = λ x k.
            ground (arith, v.pooled x, v.distinct_pool, lookup-assign top x id w.pool.all_items);
        known = λ x k. ground (arith, v.known x, lookup-assign top x id w.pool.all_items);
        in_flight = ground (arith, v.in_flight, v.small, v.items);
        items = ground (arith, v.items, found);
        small = ground (arith, v.small, found);
        limited = λ k. ground (arith, v.limited k, found);
        waiting = λ k. absurd (ground (arith, v.waiting k));
      })
  where
    found : length (assign top id w.pool.all_items) ≡ length w.pool.all_items
    found =
        length-assign top id poi_invalid w.pool.all_items
          (v.pooled top (rw (e, elem) (ground arith)))

-- The test of `try_borrow` for creating an item.
abbrev may_create : World → Bool
may_create w = w.pool.max_size == 0 || ltb w.pool.num_items_in_flight w.pool.max_size

lend_new :
    (w : World) (id item : ℕ)
    → IsValid w
    → IsFresh w item
    → w.pool.pool ≡ []
    → may_create w ≡ true
    → IsValid (lend w (try_borrow w.pool id item))
unfolding try_borrow elem
lend_new w id item v fresh e may =
    rw (e, try_borrow)
      (rw (may, try_borrow)
        (record {
          distinct_pool = ground (arith, e);
          distinct_lent = (
            ground (arith, v.known item, fresh.0, Bool-cases (elem item w.lent)),
            v.distinct_lent,
          );
          apart = λ x k. absurd (ground (arith, e));
          pooled = λ x k. absurd (ground (arith, e));
          known = λ x k. ground (
            arith,
            v.known x,
            lookup-assign item x id (emplace item 0 w.pool.all_items),
            lookup-emplace item x 0 w.pool.all_items fresh.0,
          );
          in_flight = omega (arith, v.in_flight, v.items, fresh.1, ap length e);
          items = omega (arith, v.items, grown, ap length e);
          small = omega (arith, grown, fresh.1);
          limited = λ k. ground (arith, grown, v.items, v.in_flight, e, may);
          waiting = λ k. refl;
        }))
  where
    listed : lookup item (emplace item 0 w.pool.all_items) ≡ some 0
    listed = lookup-emplace item item 0 w.pool.all_items fresh.0 ∙ rw (==_refl item)

    grown : length (assign item id (emplace item 0 w.pool.all_items)) ≡ length w.pool.all_items + 1
    grown = length-assign item id 0 _ listed ∙ length-emplace item 0 w.pool.all_items fresh.0

try_borrow-none :
    (p : Pool) (id item : ℕ)
    → p.pool ≡ []
    → (p.max_size == 0 || ltb p.num_items_in_flight p.max_size) ≡ false
    → try_borrow p id item ≡ (p, none)
unfolding try_borrow
try_borrow-none p id item e may = rw (e, try_borrow) (rw (may, try_borrow) refl)

-- What `try_borrow` does: it hands out an item, or the stack is empty and nothing changes.
try_borrow_cases :
    (w : World) (id item : ℕ)
    → IsValid w
    → IsFresh w item
    → ((x : ℕ) × (q : Pool) × (try_borrow w.pool id item ≡ (q, some x))
        × IsValid (lend w (q, some x)))
      ⊎ ((try_borrow w.pool id item ≡ (w.pool, none)) × (w.pool.pool ≡ []))
try_borrow_cases w id item v fresh = go w.pool.pool refl
  where
    some_item :
        (x : ℕ)
        → (try_borrow w.pool id item).1 ≡ some x
        → IsValid (lend w (try_borrow w.pool id item))
        → (y : ℕ) × (q : Pool) × (try_borrow w.pool id item ≡ (q, some y))
          × IsValid (lend w (q, some y))
    some_item x e h =
        let eq : try_borrow w.pool id item ≡ ((try_borrow w.pool id item).0, some x) =
          λ i. ((try_borrow w.pool id item).0, e i) in
        (x, (try_borrow w.pool id item).0, eq, subst (λ r. IsValid (lend w r)) eq h)

    go :
        (xs : List ℕ)
        → w.pool.pool ≡ xs
        → ((x : ℕ) × (q : Pool) × (try_borrow w.pool id item ≡ (q, some x))
            × IsValid (lend w (q, some x)))
          ⊎ ((try_borrow w.pool id item ≡ (w.pool, none)) × (w.pool.pool ≡ []))
    go [] e = elim (Bool-cases (may_create w)) [
      | inl may ↦ inl (
          some_item item (unfold try_borrow in rw (e, try_borrow) (rw (may, try_borrow) refl))
            (lend_new w id item v fresh e may))
      | inr full ↦ inr (try_borrow-none w.pool id item e full, e)
    ]
    go (top ∷ rest) e = inl (
        some_item top (unfold try_borrow in rw (e, try_borrow) refl)
          (lend_top w id item top rest v e))

borrow-IsValid :
    (w : World) (id item : ℕ)
    → IsValid w
    → IsFresh w item
    → IsValid (lend w (borrow w.pool id item))
unfolding borrow
borrow-IsValid w id item v fresh = elim (try_borrow_cases w id item v fresh) [
  | inl (x, q, e, h) ↦ rw e h
  | inr (e, _) ↦ rw e v
]

waits_active :
    (callback : ℕ) (p : Pool)
    → p.callback_active ≡ true
    → wait_or_serve callback (p, none) ≡ err waiting_pool
unfolding wait_or_serve
waits_active callback p e = ground arith

waits_idle :
    (callback : ℕ) (p : Pool)
    → p.callback_active ≡ false
    → wait_or_serve callback (p, none)
      ≡ ok (record p { callback = callback; callback_active = true }, none)
unfolding wait_or_serve
waits_idle callback p e = ground arith

borrow_async-IsValid :
    (w : World) (callback id item : ℕ)
    → IsValid w
    → IsFresh w item
    → IsValid (attempt w (borrow_async w.pool callback id item))
unfolding borrow_async
borrow_async-IsValid w callback id item v fresh = elim (try_borrow_cases w id item v fresh) [
  | inl (x, q, e, h) ↦ rw (e, borrow_async) h
  | inr (e, stack) ↦
      rw (e, borrow_async)
        (elim (Bool-cases w.pool.callback_active) [
          | inl active ↦
              subst (λ r. IsValid (attempt w r)) (sym (waits_active callback w.pool active)) v
          | inr idle ↦
              subst (λ r. IsValid (attempt w r)) (sym (waits_idle callback w.pool idle))
                (record {
                  distinct_pool = v.distinct_pool;
                  distinct_lent = v.distinct_lent;
                  apart = v.apart;
                  pooled = v.pooled;
                  known = v.known;
                  in_flight = v.in_flight;
                  items = v.items;
                  small = v.small;
                  limited = v.limited;
                  waiting = λ _. stack;
                })
        ])
]

-- Every operation keeps the items apart and the counters exact.
pub Step-IsValid : {w u : World} → Step w u → IsValid w → IsValid u
Step-IsValid {w} (borrows id item fresh) v = borrow-IsValid w id item v fresh
Step-IsValid {w} (awaits callback id item fresh) v = borrow_async-IsValid w callback id item v fresh
Step-IsValid {w} (returns item held) v = put_back-IsValid w item v held

-- Whatever borrows, waiting borrows and returns by clients that hold the item take a valid pool to,
-- it is valid again: no item is lent twice or both lent and on the stack, the counter of items in
-- flight is the number lent, and a limit on the size is kept. Items made are new addresses.
pub Reach-IsValid : {w u : World} → Reach w u → IsValid w → IsValid u
Reach-IsValid here v = v
Reach-IsValid (next r s) v = Step-IsValid s (Reach-IsValid r v)
