-- ===== src/ContextPool/Invariant.antt =====
-- What holds of the pool of src/io_context_pool.cpp between two calls: there is always an active
-- context, the vector never grows past what was reserved, and the iterator points into it.
use lserver.ContextPool.RoundRobin.{active_at, hold_at, moved_on, round_active, round_inactive}
use lserver.Prelude.{
  if_elim, sym, subst, ◌⊎◌, ℕ, zero, suc, ◌+◌, ◌≤◌, ◌<◌, ◌≡◌, ◌≢◌, refl, false, Option, none, some,
  List, [], ◌∷◌, ◌++◌, arith, ltb, ◌==◌, if◌then◌else◌, length, get_elem?, set, length-set,
  length-append, Bool-cases, inl, inr,
}
use lserver.LsContext
use lserver.LsContext.{LsContext}
use lserver.ContextPool.{
  ContextPool, Outcome, returned, threw, Chosen, chosen, out_of_range, out_of_fuel, wrap,
  get_context_round_robin, reuse_first, append_context, add_context, active_contexts_count,
  deactivate_context,
}
use lserver.ContextPool.Counting.{
  weight, active_count-set, active_count-append, Reuses, reuse_first-Reuses,
}

pub record IsValid (p : ContextPool) : Type 0 where
  pub bounded : length p.lscontexts ≤ p.capacity
  pub pointed : p.next_context < length p.lscontexts
  pub serving : 1 ≤ active_contexts_count p

abbrev pub state_of {ℓ} : {A : Type ℓ} → Outcome A → ContextPool
state_of (returned p a) = p
state_of (threw p e) = p

-- The pool after a call of `get_context_round_robin` that returns.
abbrev pub Keeps : Chosen → Type 0
Keeps (chosen q id) = IsValid q
Keeps out_of_range = Unit
Keeps out_of_fuel = Unit

grow-IsValid :
    (p : ContextPool) (c : LsContext)
    → IsValid p
    → length p.lscontexts ≢ p.capacity
    → IsValid (record p { lscontexts = p.lscontexts ++ c ∷ [] })
unfolding active_contexts_count weight
grow-IsValid p c v room = record {
  bounded = omega (arith, v.bounded, length-append p.lscontexts (c ∷ []));
  pointed = omega (arith, v.pointed, length-append p.lscontexts (c ∷ []));
  serving = omega (arith, v.serving, active_count-append p.lscontexts c);
}

pub replace-IsValid :
    (p : ContextPool) (i : ℕ) (c c' : LsContext)
    → IsValid p
    → get_elem? p.lscontexts i ≡ some c
    → (c'.active ≡ c.active) ⊎ (2 ≤ active_contexts_count p)
    → IsValid (record p { lscontexts = set p.lscontexts i c' })
unfolding active_contexts_count weight
replace-IsValid p i c c' v at enough = record {
  bounded = omega (arith, v.bounded, length-set p.lscontexts i c');
  pointed = omega (arith, v.pointed, length-set p.lscontexts i c');
  serving = ground (arith, v.serving, active_count-set p.lscontexts i c c' at);
}

moved-IsValid :
    (p : ContextPool)
    → IsValid p
    → IsValid (record p { next_context = wrap (length p.lscontexts) (p.next_context + 1) })
unfolding active_contexts_count
moved-IsValid p v = record {
  bounded = v.bounded;
  pointed = ground (arith, v.pointed);
  serving = v.serving;
}

hold_at-IsValid :
    (p : ContextPool) (i : ℕ)
    → IsValid p
    → IsValid (record p { lscontexts = hold_at p.lscontexts i })
hold_at-IsValid p i v = go (get_elem? p.lscontexts i) refl
  where
    go :
        (o : Option LsContext)
        → get_elem? p.lscontexts i ≡ o
        → IsValid (record p { lscontexts = hold_at p.lscontexts i })
    go none e = rw (e, hold_at) v
    go (some c) e =
        rw (e, hold_at)
          (replace-IsValid p i c (LsContext.hold c) v e (inl (unfold LsContext.hold in refl)))

-- `hold` is all that happens to a context that is handed out.
pub round-Keeps : (fuel : ℕ) (p : ContextPool) → IsValid p → Keeps (get_context_round_robin fuel p)
round-Keeps zero p v = unfold get_context_round_robin in tt
round-Keeps (suc fuel) p v = elim (Bool-cases (active_at p.lscontexts p.next_context)) [
  | inl on ↦
      subst Keeps (sym (round_active fuel p on))
        (hold_at-IsValid (moved_on p) p.next_context (moved-IsValid p v))
  | inr off ↦
      subst Keeps (sym (round_inactive fuel p v.pointed off))
        (round-Keeps fuel (moved_on p) (moved-IsValid p v))
]

append_context-IsValid :
    (p : ContextPool) (memory n : ℕ)
    → IsValid p
    → length p.lscontexts ≢ p.capacity
    → IsValid (state_of (append_context p memory n))
append_context-IsValid p memory n v room =
    go (LsContext.set_num_threads (LsContext.construct memory) n) refl
  where
    go :
        (r : LsContext.Checked)
        → LsContext.set_num_threads (LsContext.construct memory) n ≡ r
        → IsValid (state_of (append_context p memory n))
    go (LsContext.invalid e) h =
        unfold append_context in rw (h, append_context) (grow-IsValid p _ v room)
    go (LsContext.valid c) h =
        unfold append_context in rw (h, append_context) (grow-IsValid p _ v room)

pub add_context-IsValid :
    (p : ContextPool) (memory n : ℕ) → IsValid p → IsValid (state_of (add_context p memory n))
add_context-IsValid p memory n v =
    go (reuse_first p.lscontexts n) refl (reuse_first-Reuses p.lscontexts n)
  where
    go :
        (o : Option (List LsContext))
        → reuse_first p.lscontexts n ≡ o
        → Reuses p.lscontexts o
        → IsValid (state_of (add_context p memory n))
    go (some cs) e r =
        unfold add_context active_contexts_count in
        rw (e, add_context)
          (record {
            bounded = omega (arith, v.bounded);
            pointed = omega (arith, v.pointed);
            serving = omega arith;
          })
    go none e r = elim (Bool-cases (length p.lscontexts == p.capacity)) [
      | inl full ↦ unfold add_context in rw (e, add_context) (rw (full, if◌then◌else◌) v)
      | inr room ↦
          unfold add_context in
          rw (e, add_context)
            (rw (room, if◌then◌else◌) (append_context-IsValid p memory n v (ground arith)))
    ]

pub deactivate_context-IsValid :
    (p : ContextPool) (index : ℕ) → IsValid p → IsValid (state_of (deactivate_context p index))
deactivate_context-IsValid p index v = go (get_elem? p.lscontexts index) refl
  where
    go :
        (o : Option LsContext)
        → get_elem? p.lscontexts index ≡ o
        → IsValid (state_of (deactivate_context p index))
    go none e = unfold deactivate_context in rw (e, deactivate_context) v
    go (some c) e =
        unfold deactivate_context in
        rw (e, deactivate_context)
          (if_elim (λ o. IsValid (state_of {A = ℕ} o)) c.active _ _
            (λ on.
              if_elim (λ o. IsValid (state_of {A = ℕ} o)) (ltb (active_contexts_count p) 2) _ _
                (λ few. v)
                (λ many.
                  replace-IsValid p index c (LsContext.stop c false).0 v e (inr (ground arith))))
            (λ off. v))

-- What is called on the pool of a running server: a dispatch, the two reconfigurations, and what
-- the sessions do to their context.
pub data Call : Type 0 where
  dispatch : Call
  add : (memory num_threads : ℕ) → Call
  deactivate : (index : ℕ) → Call
  ref deref unhold : (index : ℕ) → Call

update_at : (LsContext → LsContext) → ContextPool → ℕ → ContextPool
update_at f p i = elim (get_elem? p.lscontexts i) [
  | none ↦ p
  | some c ↦ record p { lscontexts = set p.lscontexts i (f c) }
]

after_dispatch : ContextPool → Chosen → ContextPool
after_dispatch p (chosen q id) = q
after_dispatch p out_of_range = p
after_dispatch p out_of_fuel = p

pub step : ContextPool → Call → ContextPool
unfolding update_at after_dispatch
step p dispatch = after_dispatch p (get_context_round_robin (length p.lscontexts) p)
step p (add memory num_threads) = state_of (add_context p memory num_threads)
step p (deactivate index) = state_of (deactivate_context p index)
step p (ref index) = update_at LsContext.ref p index
step p (deref index) = update_at LsContext.deref p index
step p (unhold index) = update_at LsContext.unhold p index

pub run : ContextPool → List Call → ContextPool
run p [] = p
run p (c ∷ cs) = run (step p c) cs

update_at-IsValid :
    (f : LsContext → LsContext) (p : ContextPool) (i : ℕ)
    → ((c : LsContext) → (f c).active ≡ c.active)
    → IsValid p
    → IsValid (update_at f p i)
update_at-IsValid f p i same v = go (get_elem? p.lscontexts i) refl
  where
    go : (o : Option LsContext) → get_elem? p.lscontexts i ≡ o → IsValid (update_at f p i)
    go none e = unfold update_at in rw (e, update_at) v
    go (some c) e =
        unfold update_at in rw (e, update_at) (replace-IsValid p i c (f c) v e (inl (same c)))

after_dispatch-IsValid :
    (p : ContextPool) (r : Chosen) → IsValid p → Keeps r → IsValid (after_dispatch p r)
unfolding after_dispatch
after_dispatch-IsValid p (chosen q id) v k = k
after_dispatch-IsValid p out_of_range v k = v
after_dispatch-IsValid p out_of_fuel v k = v

pub step-IsValid : (p : ContextPool) (c : Call) → IsValid p → IsValid (step p c)
unfolding step
step-IsValid p dispatch v = after_dispatch-IsValid p _ v (round-Keeps (length p.lscontexts) p v)
step-IsValid p (add memory n) v = add_context-IsValid p memory n v
step-IsValid p (deactivate index) v = deactivate_context-IsValid p index v
step-IsValid p (ref i) v = update_at-IsValid LsContext.ref p i (λ c. unfold LsContext.ref in refl) v
step-IsValid p (deref i) v =
    update_at-IsValid LsContext.deref p i (λ c. unfold LsContext.deref in refl) v
step-IsValid p (unhold i) v =
    update_at-IsValid LsContext.unhold p i (λ c. unfold LsContext.unhold in refl) v

-- Every sequence of `get_context_round_robin`, `add_context`, `deactivate_context` and of the calls
-- `ref`, `deref` and `unhold` on its contexts, with those that throw among them, but no `stop`,
-- keeps a pool valid: its vector stays within what was reserved, `next_context_` points into it,
-- and at least one context is active.
pub run-IsValid : (p : ContextPool) (cs : List Call) → IsValid p → IsValid (run p cs)
unfolding run
run-IsValid p [] v = v
run-IsValid p (c ∷ cs) v = run-IsValid (step p c) cs (step-IsValid p c v)
