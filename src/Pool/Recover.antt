-- ===== src/Pool/Recover.antt =====
-- What `recover` finalizes and what the destructor of src/pool.hpp destroys.
use lserver.Prelude.{
  ◌⊎◌, ℕ, ◌≡◌, refl, ◌↔◌, true, false, none, some, List, [], ◌∷◌, arith, elem, Distinct, lookup,
  Map, keys, assign-Distinct, emplace-Distinct, elem-keys, lookup-assign, ==_refl, ◌∙◌, Option, inl,
  inr,
}
use lserver.Pool.{
  Pool, Result, finalized, recover, destruct, borrow, borrow_async, try_borrow, put_back,
  take_or_create, label, wait_or_serve, subscribe, ok, err, poi_invalid,
}
use lserver.Pool
use lserver.Pool.Ownership.{Reach-IsValid}
use lserver.Pool.World.{
  World, IsValid, lend, serve, attempt, borrows, awaits, returns, Reach, here, next,
}

finalized_unlisted :
    (id x : ℕ) (m : Map ℕ) → elem x (keys m) ≡ false → elem x (finalized id m) ≡ false
unfolding finalized elem
finalized_unlisted id x [] h = refl
finalized_unlisted id x ((i, poi) ∷ m) h = ground (arith, finalized_unlisted id x m)

finalized_iff :
    (id x : ℕ) (m : Map ℕ)
    → Distinct (keys m)
    → (elem x (finalized id m) ≡ true) ↔ (lookup x m ≡ some id)
unfolding finalized elem lookup
finalized_iff id x [] d = (λ h. absurd (cc h), λ h. absurd (cc h))
finalized_iff id x ((i, poi) ∷ m) d =
    let r = finalized_iff id x m d.1 in
    let u = finalized_unlisted id i m d.0 in
    (λ h. ground (arith, r.0, u), λ h. ground (arith, r.1, u))

label-Distinct :
    (id : ℕ) (r : Pool × Option ℕ)
    → Distinct (keys r.0.all_items)
    → Distinct (keys (label id r).0.all_items)
unfolding label
label-Distinct id (p, none) d = d
label-Distinct id (p, some x) d = assign-Distinct x id p.all_items d

take_or_create-Distinct :
    (xs : List ℕ) (p : Pool) (item : ℕ)
    → Distinct (keys p.all_items)
    → Distinct (keys (take_or_create xs p item).0.all_items)
unfolding take_or_create subscribe
take_or_create-Distinct [] p item d = ground (arith, emplace-Distinct item 0 p.all_items d)
take_or_create-Distinct (x ∷ xs) p item d = d

abbrev pub Indexed : World → Type 0
Indexed w = Distinct (keys w.pool.all_items)

try_borrow-Distinct :
    (p : Pool) (id item : ℕ)
    → Distinct (keys p.all_items)
    → Distinct (keys (try_borrow p id item).0.all_items)
unfolding try_borrow
try_borrow-Distinct p id item d =
    label-Distinct id (take_or_create p.pool p item) (take_or_create-Distinct p.pool p item d)

lend-Indexed :
    (w : World) (r : Pool × Option ℕ) → Distinct (keys r.0.all_items) → Indexed (lend w r)
lend-Indexed w (q, none) d = d
lend-Indexed w (q, some x) d = d

attempt-Indexed :
    (w : World) (callback : ℕ) (r : Pool × Option ℕ)
    → Indexed w
    → Distinct (keys r.0.all_items)
    → Indexed (attempt w (wait_or_serve callback r))
unfolding wait_or_serve
attempt-Indexed w callback (q, some x) v d = d
attempt-Indexed w callback (q, none) v d = ground arith

put_back-Indexed :
    (w : World) (lent : List ℕ) (item : ℕ) → Indexed w → Indexed (serve lent (put_back w.pool item))
unfolding put_back
put_back-Indexed w lent item d = ground (arith, assign-Distinct item poi_invalid w.pool.all_items d)

pub Reach-Indexed : {w u : World} → Reach w u → Indexed w → Indexed u
unfolding borrow borrow_async
Reach-Indexed here d = d
Reach-Indexed (next {w = v} r (borrows id item fresh)) d =
    lend-Indexed v _ (try_borrow-Distinct v.pool id item (Reach-Indexed r d))
Reach-Indexed (next {w = v} r (awaits callback id item fresh)) d =
    attempt-Indexed v callback _ (Reach-Indexed r d)
      (try_borrow-Distinct v.pool id item (Reach-Indexed r d))
Reach-Indexed (next {w = v} r (returns item held)) d = put_back-Indexed v _ item (Reach-Indexed r d)

abbrev pub start : ℕ → World
start max_size = record { pool = Pool.empty max_size; lent = [] }

pub start-IsValid : (max_size : ℕ) → IsValid (start max_size)
unfolding elem
start-IsValid max_size = record {
  distinct_pool = tt;
  distinct_lent = tt;
  apart = λ x k. refl;
  pooled = λ x k. absurd (cc k);
  known = λ x k. absurd (cc k);
  in_flight = refl;
  items = refl;
  small = omega arith;
  limited = λ k. omega arith;
  waiting = λ k. refl;
}

label-lookup :
    (id x : ℕ) (r : Pool × Option ℕ)
    → (label id r).1 ≡ some x
    → lookup x (label id r).0.all_items ≡ some id
unfolding label
label-lookup id x (p, none) e = absurd (cc e)
label-lookup id x (p, some y) e = lookup-assign y x id p.all_items ∙ ground (arith, ==_refl x)

borrow-lookup :
    (p : Pool) (id item x : ℕ)
    → (borrow p id item).1 ≡ some x
    → lookup x (borrow p id item).0.all_items ≡ some id
unfolding borrow try_borrow
borrow-lookup p id item x e = label-lookup id x (take_or_create p.pool p item) e

-- When no item is registered twice, an item that `borrow` hands out under an id is among those that
-- `recover` of an id finalizes exactly when the ids are equal.
pub recover-borrow :
    (p : Pool) (id item x j : ℕ)
    → Distinct (keys p.all_items)
    → (borrow p id item).1 ≡ some x
    → (elem x (recover (borrow p id item).0 j) ≡ true) ↔ (j ≡ id)
unfolding recover
recover-borrow p id item x j d e =
    let r =
      finalized_iff j x (borrow p id item).0.all_items
        (unfold borrow in try_borrow-Distinct p id item d) in
    let found = borrow-lookup p id item x e in
    (λ h. ground (arith, r.0, found), λ h. r.1 (ground (arith, found)))

-- Whatever borrows, waiting borrows and returns lead to from a lazy pool, the destructor destroys
-- no item twice, and it destroys every item that is lent or on the stack.
pub destruct-covers :
    {max_size : ℕ} {w : World}
    → Reach (start max_size) w
    → Distinct (destruct w.pool)
      × ((x : ℕ)
          → (elem x w.lent ≡ true) ⊎ (elem x w.pool.pool ≡ true)
          → elem x (destruct w.pool) ≡ true)
unfolding destruct
destruct-covers {max_size} {w} r = (Reach-Indexed r tt, covers)
  where
    v : IsValid w
    v = Reach-IsValid r (start-IsValid max_size)

    covers :
        (x : ℕ)
        → (elem x w.lent ≡ true) ⊎ (elem x w.pool.pool ≡ true)
        → elem x (keys w.pool.all_items) ≡ true
    covers x (inl h) = elem-keys x w.pool.all_items (v.known x h)
    covers x (inr h) = elem-keys x w.pool.all_items (λ e. cc (v.pooled x h))
