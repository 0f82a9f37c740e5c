-- ===== src/ContextPool/Reconfigure.antt =====
-- Reconfiguring the pool of src/io_context_pool.cpp while it serves.
use lserver.Prelude.{
  All, ap, ◌∙◌, sym, subst, ◌+◌, length-append, dec_lt, set_same, get_elem?-set_self,
  get_elem?-set_ne, ℕ, zero, suc, ◌≤◌, ◌<◌, ◌≡◌, ◌≢◌, refl, true, false, Option, none, some, List,
  [], ◌∷◌, ◌++◌, arith, ltb, if◌then◌else◌, length, get_elem?, set, Bool-cases, inl, inr, ◌⊎◌,
}
use lserver.LsContext
use lserver.LsContext.{LsContext, ebusy}
use lserver.LsContext.Lifecycle.{stop_lem}
use lserver.ContextPool.{
  ContextPool, Outcome, returned, threw, Error, Made, made, not_made, max_contexts, threads,
  last_active, not_active, bad_index, get_context_round_robin, reuse_first, add_context,
  active_count, active_contexts_count, deactivate_context, add_contexts, construct,
}
use lserver.ContextPool.RoundRobin.{active_at, Serves, get_context_round_robin-Serves}
use lserver.ContextPool.Holds.{holds_at, holds_of}
use lserver.ContextPool.Invariant.{IsValid, Call, run, run-IsValid}

active_count_pos :
    (cs : List LsContext)
    → 1 ≤ active_count cs
    → (j : ℕ) × (j < length cs) × (active_at cs j ≡ true)
unfolding active_count
active_count_pos [] h = absurd (omega arith)
active_count_pos (c ∷ cs) h = elim (Bool-cases c.active) [
  | inl on ↦ (0, omega arith, on)
  | inr off ↦ let (j, jn, e) = active_count_pos cs (ground arith) in (suc j, omega arith, e)
]

pub get_context_round_robin_returns :
    (p : ContextPool)
    → IsValid p
    → (k : ℕ) × Serves p (get_context_round_robin (length p.lscontexts) p) k
get_context_round_robin_returns p v =
    let (j, jn, on) = active_count_pos p.lscontexts (unfold active_contexts_count in v.serving) in
    get_context_round_robin-Serves p j v.pointed jn on

-- After any sequence of `get_context_round_robin`, `add_context`, `deactivate_context` and of the
-- calls `ref`, `deref` and `unhold` on its contexts, but no `stop`, a pool that was valid has
-- `get_context_round_robin` return within as many rounds as there are contexts: it hands out, with
-- one more hold, the first active context counted cyclically from `next_context_`.
pub dispatch_returns :
    (p : ContextPool) (cs : List Call)
    → IsValid p
    → let q = run p cs in (k : ℕ) × Serves q (get_context_round_robin (length q.lscontexts) q) k
dispatch_returns p cs v = get_context_round_robin_returns (run p cs) (run-IsValid p cs v)

abbrev pub pool_of : Made → ContextPool
pool_of (made p) = p
pool_of (not_made e) = record { lscontexts = []; capacity = 0; next_context = 0 }

abbrev AllActive : List LsContext → Type 0
AllActive = All (λ c. c.active ≡ true)

reuse_first-AllActive : (cs : List LsContext) (n : ℕ) → AllActive cs → reuse_first cs n ≡ none
unfolding reuse_first LsContext.reusable
reuse_first-AllActive [] n on = refl
reuse_first-AllActive (c ∷ cs) n (on, rest) = ground (arith, on, reuse_first-AllActive cs n rest)

active_count-AllActive : (cs : List LsContext) → AllActive cs → active_count cs ≡ length cs
unfolding active_count
active_count-AllActive [] on = refl
active_count-AllActive (c ∷ cs) (on, rest) = ground (arith, on, active_count-AllActive cs rest)

append-AllActive :
    (cs : List LsContext) (c : LsContext)
    → AllActive cs
    → c.active ≡ true
    → AllActive (cs ++ c ∷ [])
append-AllActive [] c on h = (h, tt)
append-AllActive (d ∷ cs) c (first, rest) h = (first, append-AllActive cs c rest h)

-- All contexts are active, as they are while the constructor adds them.
module _ (memory n : ℕ) (lo : 1 ≤ n) (hi : n ≤ 64) where
  running : LsContext
  running = LsContext.run_threads (record (LsContext.construct memory) { num_threads = n })

  running-active : running.active ≡ true
  unfolding running LsContext.run_threads LsContext.construct
  running-active = refl

  add_context-grows :
      (p : ContextPool)
      → AllActive p.lscontexts
      → length p.lscontexts < p.capacity
      → add_context p memory n
        ≡ returned (record p { lscontexts = p.lscontexts ++ running ∷ [] }) tt
  unfolding add_context LsContext.set_num_threads running
  add_context-grows p on room = ground (arith, reuse_first-AllActive p.lscontexts n on)

  add_context-full :
      (p : ContextPool)
      → AllActive p.lscontexts
      → length p.lscontexts ≡ p.capacity
      → add_context p memory n ≡ threw p max_contexts
  unfolding add_context
  add_context-full p on full = ground (arith, reuse_first-AllActive p.lscontexts n on)

  -- The loop of the constructor.
  abbrev Adds : ContextPool → ℕ → Outcome (Unit {0}) → Type 0
  Adds p count r =
      ((length p.lscontexts + count ≤ p.capacity)
        × ((q : ContextPool) × (r ≡ returned q tt)
            × AllActive q.lscontexts
            × (length q.lscontexts ≡ length p.lscontexts + count)
            × (q.capacity ≡ p.capacity)))
      ⊎ ((p.capacity < length p.lscontexts + count)
          × ((q : ContextPool) × (r ≡ threw q max_contexts)))

  add_contexts-Adds :
      (count : ℕ) (p : ContextPool)
      → AllActive p.lscontexts
      → length p.lscontexts ≤ p.capacity
      → Adds p count (add_contexts p count memory n)
  unfolding add_contexts
  add_contexts-Adds zero p on room = inl (omega arith, (p, refl, on, omega arith, refl))
  add_contexts-Adds (suc count) p on room = elim (dec_lt (length p.lscontexts) p.capacity) [
    | no full ↦
        let e = add_context-full p on (omega arith) in
        inr (omega arith, (p, rw (e, add_contexts) refl))
    | yes more ↦
        let p' = record p { lscontexts = p.lscontexts ++ running ∷ [] } in
        let longer = length-append p.lscontexts (running ∷ []) in
        let e = add_context-grows p on more in
        let here : add_contexts p (suc count) memory n ≡ add_contexts p' count memory n =
          rw (e, add_contexts) refl in
        elim (add_contexts-Adds count p' (append-AllActive p.lscontexts running on running-active)
          (omega (arith, longer))) [
            | inl (fits, (q, r, on', size, capacity)) ↦
                inl (omega (arith, longer), (q, here ∙ r, on', omega (arith, longer), capacity))
            | inr (over, (q, r)) ↦ inr (omega (arith, longer), (q, here ∙ r))
          ]
  ]

  -- The constructor with at least one context of from 1 to 64 threads makes a valid pool of as
  -- many contexts as it is asked for, all active, if there is room for them; if not, it throws
  -- for that reason.
  pub construct-IsValid :
      (pool_size max_pool_size : ℕ)
      → 1 ≤ pool_size
      → ((pool_size ≤ max_pool_size)
          × ((p : ContextPool) × (construct pool_size max_pool_size memory n ≡ made p)
              × IsValid p
              × (length p.lscontexts ≡ pool_size)
              × (active_contexts_count p ≡ pool_size)))
        ⊎ ((max_pool_size < pool_size)
            × (construct pool_size max_pool_size memory n ≡ not_made max_contexts))
  unfolding construct active_contexts_count
  construct-IsValid pool_size max_pool_size some_context =
      let reserved : ContextPool = record {
        lscontexts = [];
        capacity = max_pool_size;
        next_context = memory;
      } in
      elim (add_contexts-Adds pool_size reserved tt (omega arith)) [
        | inl (fits, (q, r, on, size, capacity)) ↦
            let count = active_count-AllActive q.lscontexts on in
            inl (
              omega arith,
              (
                record q { next_context = 0 },
                rw (r, construct) refl,
                record {
                  bounded = omega (arith, size, capacity);
                  pointed = omega (arith, size);
                  serving = omega (arith, size, count);
                },
                omega (arith, size),
                omega (arith, size, count),
              ),
            )
        | inr (over, (q, r)) ↦ inr (omega arith, rw (r, construct) refl)
      ]

  pub made-IsValid :
      (pool_size max_pool_size : ℕ)
      → 1 ≤ pool_size
      → pool_size ≤ max_pool_size
      → IsValid (pool_of (construct pool_size max_pool_size memory n))
  made-IsValid pool_size max_pool_size some_context room =
      elim (construct-IsValid pool_size max_pool_size some_context) [
        | inl (fits, (p, e, v, size, count)) ↦ subst (λ r. IsValid (pool_of r)) (sym e) v
        | inr (over, e) ↦ absurd (omega arith)
      ]

-- When no context is reusable and there is room, `add_context` with no thread or more than 64
-- throws, and the vector has grown by an active context with no thread running.
pub add_context_bad_threads :
    (p : ContextPool) (memory n : ℕ)
    → reuse_first p.lscontexts n ≡ none
    → length p.lscontexts < p.capacity
    → (n ≡ 0) ⊎ (64 < n)
    → (c : LsContext) × (e : Error) × (add_context p memory n
        ≡ threw (record p { lscontexts = p.lscontexts ++ c ∷ [] }) e)
      × (c.active ≡ true)
      × (c.running ≡ 0)
unfolding add_context LsContext.set_num_threads LsContext.construct
add_context_bad_threads p memory n full room bad = (
  LsContext.construct memory,
  threads (if ltb n 1 then LsContext.no_threads else LsContext.too_many_threads),
  ground arith,
  refl,
  refl,
)

-- The two ways in which `deactivate_context` returns.
abbrev pub Deactivates : ContextPool → ℕ → ContextPool → ℕ → Type 0
Deactivates p index q rc =
    ((0 < holds_at p.lscontexts index) × (rc ≡ ebusy) × (q.lscontexts ≡ p.lscontexts))
    ⊎ ((holds_at p.lscontexts index ≡ 0)
        × (rc ≡ 0)
        × (active_at q.lscontexts index ≡ false)
        × ((j : ℕ) → index ≢ j → get_elem? q.lscontexts j ≡ get_elem? p.lscontexts j))

stop-Deactivates :
    (p : ContextPool) (index : ℕ) (c : LsContext)
    → get_elem? p.lscontexts index ≡ some c
    → let (c', rc) = LsContext.stop c false in
      Deactivates p index (record p { lscontexts = set p.lscontexts index c' }) rc
stop-Deactivates p index c at = elim (stop_lem c false) [
  | inl (held, polite, e) ↦
      rw e (inl (omega (arith, held, ap holds_of at), refl, set_same p.lscontexts index c at))
  | inr (free, rc, off, _, _, _) ↦ inr (
    elim free [ inl none_left ↦ ap holds_of at ∙ none_left | inr forced ↦ absurd (cc forced) ],
    rc,
    rw (get_elem?-set_self p.lscontexts index (LsContext.stop c false).0 c at, active_at) off,
    λ j ne. get_elem?-set_ne p.lscontexts index j (LsContext.stop c false).0 ne,
  )
]

-- `deactivate_context` either returns, the context being active and one of at least two: then, if
-- the context is held, it gives `EBUSY` and changes no context, and if it is not held, it gives 0
-- with that context inactive and the others as they were. Or it throws and changes nothing, because
-- no active context has that index or fewer than two are active.
pub deactivate_context_lem :
    (p : ContextPool) (index : ℕ)
    → ((q : ContextPool) × (rc : ℕ) × (deactivate_context p index ≡ returned q rc)
        × (active_at p.lscontexts index ≡ true)
        × (2 ≤ active_contexts_count p)
        × Deactivates p index q rc)
      ⊎ ((e : Error) × (deactivate_context p index ≡ threw p e)
          × ((active_at p.lscontexts index ≡ false) ⊎ (active_contexts_count p < 2)))
deactivate_context_lem p index = go (get_elem? p.lscontexts index) refl
  where
    after : LsContext → ContextPool
    after c = record p { lscontexts = set p.lscontexts index (LsContext.stop c false).0 }

    go :
        (o : Option LsContext)
        → get_elem? p.lscontexts index ≡ o
        → ((q : ContextPool) × (rc : ℕ) × (deactivate_context p index ≡ returned q rc)
            × (active_at p.lscontexts index ≡ true)
            × (2 ≤ active_contexts_count p)
            × Deactivates p index q rc)
          ⊎ ((e : Error) × (deactivate_context p index ≡ threw p e)
              × ((active_at p.lscontexts index ≡ false) ⊎ (active_contexts_count p < 2)))
    go none e = inr (bad_index, unfold deactivate_context in ground arith, inl (ground arith))
    go (some c) e = elim (Bool-cases c.active) [
      | inr off ↦ inr (not_active, unfold deactivate_context in ground arith, inl (ground arith))
      | inl on ↦ elim (dec_lt (active_contexts_count p) 2) [
        | yes few ↦ inr (last_active, unfold deactivate_context in ground arith, inr few)
        | no many ↦ inl (
          after c,
          (LsContext.stop c false).1,
          unfold deactivate_context in ground arith,
          ground arith,
          omega arith,
          stop-Deactivates p index c e,
        )
      ]
    ]
