-- ===== src/SessionPool/Runs.antt =====
-- Runs of a session pool of src/session_pool.hpp: its sessions count, it is asked for reports, it
-- lends sessions and takes them back.
use lserver.Prelude.{
  Option, none, some, List, if_elim, ◌==◌, ℕ, ◌+◌, ◌^◌, ◌%◌, ◌≡◌, refl, ap, ◌∙◌, true, false, [],
  ◌∷◌, arith, elem, Distinct, keys, Map, assign, emplace, assign-Distinct, emplace-Distinct,
  elem-keys-assign, elem-keys-emplace,
}
use lserver.Pool.Listing.{borrow_map, put_back_map}
use lserver.Pool.Stack.{elem-here, elem-there}
use lserver.Stats.{SessionStats, clear}
use lserver.SessionPool
use lserver.SessionPool.{
  SessionPool, get_stats, transaction_started, bytes_received, bytes_sent, empty, collect_one,
}
use lserver.SessionPool.Reports.{
  Counter, value, value-clear, pending, total, IsSound, empty-IsSound, count-IsSound, count-total,
  report-value, value-fetch_add, pending-set_delta,
}

-- The map of a pool whose sessions have these counters, with these amounts pending in all.
record Amounts (deltas : ℕ → SessionStats) (amounts : Counter → ℕ) (m : Map ℕ) : Type 0 where
  distinct : Distinct (keys m)
  unlisted : (j : ℕ) → elem j (keys m) ≡ false → deltas j ≡ clear
  pends : (k : Counter) → pending k deltas (keys m) ≡ amounts k

module _ (deltas : ℕ → SessionStats) (item v : ℕ) where
  pending-assign :
      (k : Counter) (m : Map ℕ)
      → (elem item (keys m) ≡ false → value k (deltas item) ≡ 0)
      → pending k deltas (keys (assign item v m)) ≡ pending k deltas (keys m)
  unfolding pending assign elem
  pending-assign k [] h = omega (arith, h refl)
  pending-assign k ((i, w) ∷ m) h = ground (arith, pending-assign k m)

  pending-emplace :
      (k : Counter) (m : Map ℕ)
      → (elem item (keys m) ≡ false → value k (deltas item) ≡ 0)
      → pending k deltas (keys (emplace item v m)) ≡ pending k deltas (keys m)
  unfolding pending emplace elem
  pending-emplace k [] h = omega (arith, h refl)
  pending-emplace k ((i, w) ∷ m) h = ground (arith, pending-emplace k m)

module _ {deltas : ℕ → SessionStats} {amounts : Counter → ℕ} where
  assign-Amounts :
      (item v : ℕ) (m : Map ℕ) → Amounts deltas amounts m → Amounts deltas amounts (assign item v m)
  assign-Amounts item v m a = record {
    distinct = assign-Distinct item v m a.distinct;
    unlisted = λ j h. a.unlisted j (ground (arith, h, elem-keys-assign item j v m));
    pends = λ k.
        pending-assign deltas item v k m (λ h. ap (value k) (a.unlisted item h) ∙ value-clear k)
        ∙ a.pends k;
  }

  emplace-Amounts :
      (item v : ℕ) (m : Map ℕ)
      → Amounts deltas amounts m
      → Amounts deltas amounts (emplace item v m)
  emplace-Amounts item v m a = record {
    distinct = emplace-Distinct item v m a.distinct;
    unlisted = λ j h. a.unlisted j (ground (arith, h, elem-keys-emplace item j v m));
    pends = λ k.
        pending-emplace deltas item v k m (λ h. ap (value k) (a.unlisted item h) ∙ value-clear k)
        ∙ a.pends k;
  }

IsSound-Amounts : (p : SessionPool) → IsSound p → Amounts p.deltas (λ k. total k p) p.base.all_items
IsSound-Amounts p v = record { distinct = v.distinct; unlisted = v.unlisted; pends = λ k. refl }

-- Lending a session and taking it back.
borrow-Amounts :
    (p : SessionPool) (id item : ℕ)
    → IsSound p
    → Amounts p.deltas (λ k. total k p) (SessionPool.borrow p id item).0.base.all_items
unfolding SessionPool.borrow
borrow-Amounts p id item v =
    borrow_map (Amounts p.deltas (λ k. total k p)) assign-Amounts emplace-Amounts p.base id item
      (IsSound-Amounts p v)

put_back-Amounts :
    (p : SessionPool) (item : ℕ)
    → IsSound p
    → Amounts p.deltas (λ k. total k p) (SessionPool.put_back p item).base.all_items
unfolding SessionPool.put_back
put_back-Amounts p item v =
    put_back_map (Amounts p.deltas (λ k. total k p)) assign-Amounts emplace-Amounts p.base item
      (IsSound-Amounts p v)

Amounts-IsSound :
    (p : SessionPool) {amounts : Counter → ℕ}
    → Amounts p.deltas amounts p.base.all_items
    → IsSound p
Amounts-IsSound p a = record { distinct = a.distinct; unlisted = a.unlisted }

borrow-IsSound :
    (p : SessionPool) (id item : ℕ) → IsSound p → IsSound (SessionPool.borrow p id item).0
unfolding SessionPool.borrow
borrow-IsSound p id item v =
    Amounts-IsSound (SessionPool.borrow p id item).0 (borrow-Amounts p id item v)

put_back-IsSound : (p : SessionPool) (item : ℕ) → IsSound p → IsSound (SessionPool.put_back p item)
unfolding SessionPool.put_back
put_back-IsSound p item v =
    Amounts-IsSound (SessionPool.put_back p item) (put_back-Amounts p item v)

-- A session that the pool has made.
abbrev pub IsListed : SessionPool → ℕ → Type 0
IsListed p item = elem item (keys p.base.all_items) ≡ true

-- A run, with what was counted and what was reported. A report visits the sessions one by one while
-- they go on counting; it has the counters of the pool to itself, and the map stays as it is: it is
-- `reporting` with the sessions that it has not yet visited.
pub data Run (k : Counter) (p : SessionPool)
    : (counted reported : ℕ) → (reporting : Option (List ℕ)) → SessionPool → Type 0 where
  here : Run k p 0 0 none p
  starts :
      {n r : ℕ} {o : Option (List ℕ)} {q : SessionPool} (item : ℕ)
      → Run k p n r o q
      → IsListed q item
      → Run k p
          (n + value k (record clear { transactions_cnt_delta = 1 }))
          r
          o
          (transaction_started q item)
  receives :
      {n r : ℕ} {o : Option (List ℕ)} {q : SessionPool} (item bytes : ℕ)
      → Run k p n r o q
      → IsListed q item
      → Run k p
          (n + value k (record clear { bytes_received_delta = bytes }))
          r
          o
          (bytes_received q item bytes)
  sends :
      {n r : ℕ} {o : Option (List ℕ)} {q : SessionPool} (item bytes : ℕ)
      → Run k p n r o q
      → IsListed q item
      → Run k p
          (n + value k (record clear { bytes_sent_delta = bytes }))
          r
          o
          (bytes_sent q item bytes)
  begins :
      {n r : ℕ} {q : SessionPool}
      → Run k p n r none q
      → Run k p n r (some (keys q.base.all_items)) (record q { session_stats = clear })
  collects :
      {n r item : ℕ} {items : List ℕ} {q : SessionPool}
      → Run k p n r (some (item ∷ items)) q
      → Run k p n r (some items) (collect_one q item)
  ends :
      {n r : ℕ} {q : SessionPool}
      → Run k p n r (some []) q
      → Run k p n (r + value k q.session_stats) none q
  borrows :
      {n r : ℕ} {q : SessionPool} (id item : ℕ)
      → Run k p n r none q
      → Run k p n r none (SessionPool.borrow q id item).0
  returns :
      {n r : ℕ} {q : SessionPool} (item : ℕ)
      → Run k p n r none q
      → Run k p n r none (SessionPool.put_back q item)

-- What a report has collected and not yet given.
abbrev collected : Counter → Option (List ℕ) → SessionPool → ℕ
collected k none q = 0
collected k (some items) q = value k q.session_stats

abbrev AreListed : Option (List ℕ) → SessionPool → Type 0
AreListed none q = Unit
AreListed (some items) q = (j : ℕ) → elem j items ≡ true → IsListed q j

abbrev Balanced : Counter → ℕ → ℕ → Option (List ℕ) → SessionPool → Type 0
Balanced k n r o q =
    IsSound q × AreListed o q × ((r + collected k o q + total k q) % 2 ^ 64 ≡ n % 2 ^ 64)

count-Balanced :
    (k : Counter) (n r : ℕ) (o : Option (List ℕ)) (q : SessionPool) (item : ℕ) (s : SessionStats)
    → IsListed q item
    → Balanced k n r o q
    → Balanced k (n + value k s) r o (SessionPool.count q item s)
unfolding SessionPool.count
count-Balanced k n r none q item s known (v, a, e) =
    (count-IsSound q item s known v, tt, omega (arith, count-total k q item s known v, e))
count-Balanced k n r (some items) q item s known (v, a, e) =
    (count-IsSound q item s known v, a, omega (arith, count-total k q item s known v, e))

collect-Balanced :
    (k : Counter) (n r item : ℕ) (items : List ℕ) (q : SessionPool)
    → Balanced k n r (some (item ∷ items)) q
    → Balanced k n r (some items) (collect_one q item)
unfolding collect_one
collect-Balanced k n r item items q (v, a, e) = (
  record {
    distinct = v.distinct;
    unlisted = λ j h.
        if_elim (λ t. t ≡ clear) (item == j) clear (q.deltas j) (λ _. refl) (λ _. v.unlisted j h);
  },
  λ j h. a j (elem-there j item items h),
  omega (
    arith,
    e,
    value-clear k,
    value-fetch_add k q.session_stats (q.deltas item),
    pending-set_delta k q.deltas item clear (keys q.base.all_items) v.distinct
        (a item (elem-here item items)),
  ),
)

Run-Balanced :
    {k : Counter} {m n r : ℕ} {o : Option (List ℕ)} {q : SessionPool}
    → Run k (empty m) n r o q
    → Balanced k n r o q
unfolding transaction_started bytes_received bytes_sent SessionPool.borrow SessionPool.put_back
    pending
Run-Balanced {m = m} here = (empty-IsSound m, tt, refl)
Run-Balanced {k} (starts {n} {r} {o} {q} item run known) =
    count-Balanced k n r o q item (record clear { transactions_cnt_delta = 1 }) known
      (Run-Balanced run)
Run-Balanced {k} (receives {n} {r} {o} {q} item bytes run known) =
    count-Balanced k n r o q item (record clear { bytes_received_delta = bytes }) known
      (Run-Balanced run)
Run-Balanced {k} (sends {n} {r} {o} {q} item bytes run known) =
    count-Balanced k n r o q item (record clear { bytes_sent_delta = bytes }) known
      (Run-Balanced run)
Run-Balanced {k} (begins {n} {r} {q} run) =
    let (v, a, e) = Run-Balanced run in
    (
      record { distinct = v.distinct; unlisted = v.unlisted },
      λ j h. h,
      omega (arith, e, value-clear k),
    )
Run-Balanced {k} (collects {n} {r} {item} {items} {q} run) =
    collect-Balanced k n r item items q (Run-Balanced run)
Run-Balanced {k} (ends {n} {r} {q} run) =
    let (v, a, e) = Run-Balanced run in (v, tt, omega (arith, e))
Run-Balanced {k} (borrows {n} {r} {q} id item run) =
    let (v, a, e) = Run-Balanced run in
    (borrow-IsSound q id item v, tt, omega (arith, e, (borrow-Amounts q id item v).pends k))
Run-Balanced {k} (returns {n} {r} {q} item run) =
    let (v, a, e) = Run-Balanced run in
    (put_back-IsSound q item v, tt, omega (arith, e, (put_back-Amounts q item v).pends k))

-- When the sessions of a pool that began empty count, also while a report visits them one by one,
-- no two reports overlap, and sessions are lent and taken back between the reports: after the last
-- one has ended, for each of the three counters the sum of the reported values and of one more
-- report is what was counted, modulo 2 ^ 64.
pub reports_lem :
    {k : Counter} {m n r : ℕ} {q : SessionPool}
    → Run k (empty m) n r none q
    → (r + value k (get_stats q).1.1) % 2 ^ 64 ≡ n % 2 ^ 64
reports_lem {k} {q = q} run =
    let (v, a, e) = Run-Balanced run in omega (arith, e, report-value k q v)
