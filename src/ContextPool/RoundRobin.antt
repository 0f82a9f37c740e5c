-- ===== src/ContextPool/RoundRobin.antt =====
-- Which context `get_context_round_robin` of src/io_context_pool.hpp hands out, and that it does.
use lserver.Prelude.{
  ℕ, zero, suc, ◌+◌, ◌-◌, ◌≤◌, ◌<◌, ◌≡◌, Bool, true, false, none, some, List, [], ◌∷◌, arith, ltb,
  if◌then◌else◌, length, get_elem?, set, Bool-cases, inl, inr, dec_lt, ap, Option-cases, sym, ◌∙◌,
  subst,
}
use lserver.LsContext
use lserver.LsContext.{LsContext}
use lserver.ContextPool.{ContextPool, wrap, Chosen, chosen, get_context_round_robin}

abbrev pub active_at : List LsContext → ℕ → Bool
active_at cs i = elim (get_elem? cs i) [ none ↦ false | some c ↦ c.active ]

abbrev pub hold_at : List LsContext → ℕ → List LsContext
hold_at cs i = elim (get_elem? cs i) [ none ↦ cs | some c ↦ set cs i (LsContext.hold c) ]

pub get_elem?-ne-none : (cs : List LsContext) (i : ℕ) → i < length cs → get_elem? cs i ≡ none → ⊥
get_elem?-ne-none [] i h e = absurd (omega arith)
get_elem?-ne-none (c ∷ cs) zero h e = cc e
get_elem?-ne-none (c ∷ cs) (suc i) h e = get_elem?-ne-none cs i (omega arith) e

-- The index that is `d` places after `i`, cyclically.
abbrev pub position : (size i d : ℕ) → ℕ
position size i d = if ltb (i + d) size then i + d else i + d - size

-- The context `k` places on is the first active one, it is handed out with one more hold, and the
-- next call starts behind it.
pub record Serves (p : ContextPool) (r : Chosen) (k : ℕ) : Type 0 where
  pub result :
      let id = position (length p.lscontexts) p.next_context k in
      r
      ≡ chosen
          (record p {
            lscontexts = hold_at p.lscontexts id;
            next_context = wrap (length p.lscontexts) (id + 1);
          })
          id
  pub active : active_at p.lscontexts (position (length p.lscontexts) p.next_context k) ≡ true
  pub skipped :
      (e : ℕ)
      → e < k
      → active_at p.lscontexts (position (length p.lscontexts) p.next_context e) ≡ false

position-zero : (n i : ℕ) → i < n → position n i 0 ≡ i
position-zero n i h = ground arith

position-wrap :
    (n i e : ℕ) → i < n → e + 1 < n → position n (wrap n (i + 1)) e ≡ position n i (e + 1)
position-wrap n i e h k = ground arith

-- The pool with its iterator moved on.
abbrev pub moved_on : ContextPool → ContextPool
moved_on p = record p { next_context = wrap (length p.lscontexts) (p.next_context + 1) }

pub round_active :
    (fuel : ℕ) (p : ContextPool)
    → active_at p.lscontexts p.next_context ≡ true
    → get_context_round_robin (suc fuel) p
      ≡ chosen
          (record (moved_on p) { lscontexts = hold_at p.lscontexts p.next_context })
          p.next_context
unfolding get_context_round_robin
round_active fuel p on = ground arith

pub round_inactive :
    (fuel : ℕ) (p : ContextPool)
    → p.next_context < length p.lscontexts
    → active_at p.lscontexts p.next_context ≡ false
    → get_context_round_robin (suc fuel) p ≡ get_context_round_robin fuel (moved_on p)
unfolding get_context_round_robin
round_inactive fuel p lt off = elim (Option-cases (get_elem? p.lscontexts p.next_context)) [
  | inl beyond ↦ absurd (get_elem?-ne-none p.lscontexts p.next_context lt beyond)
  | inr (c, at) ↦ ground arith
]

round_here :
    (fuel : ℕ) (p : ContextPool)
    → p.next_context < length p.lscontexts
    → active_at p.lscontexts p.next_context ≡ true
    → Serves p (get_context_round_robin (suc fuel) p) 0
round_here fuel p lt now =
    let e = position-zero (length p.lscontexts) p.next_context lt in
    record {
      result = rw e (round_active fuel p now);
      active = rw e now;
      skipped = λ e h. absurd (omega arith);
    }

round_later :
    (fuel k : ℕ) (p : ContextPool)
    → p.next_context < length p.lscontexts
    → k + 1 < length p.lscontexts
    → active_at p.lscontexts p.next_context ≡ false
    → Serves (moved_on p) (get_context_round_robin fuel (moved_on p)) k
    → Serves p (get_context_round_robin (suc fuel) p) (k + 1)
round_later fuel k p lt kn off s = record {
  result = rw (round_inactive fuel p lt off) (rw (← position-wrap n i k lt kn) s.result);
  active = rw (← position-wrap n i k lt kn) s.active;
  skipped = skipped;
}
  where
    n : ℕ
    n = length p.lscontexts

    i : ℕ
    i = p.next_context

    skipped : (e : ℕ) → e < k + 1 → active_at p.lscontexts (position n i e) ≡ false
    skipped zero h = rw (position-zero n i lt) off
    skipped (suc e) h =
        subst (λ j. active_at p.lscontexts j ≡ false)
          (position-wrap n i e lt (omega arith) ∙ ap (position n i) (omega arith))
          (s.skipped e (omega arith))

round :
    (fuel d : ℕ) (p : ContextPool)
    → p.next_context < length p.lscontexts
    → d < length p.lscontexts
    → active_at p.lscontexts (position (length p.lscontexts) p.next_context d) ≡ true
    → d < fuel
    → (k : ℕ) × (k ≤ d) × Serves p (get_context_round_robin fuel p) k
round zero d p lt dn on h = absurd (omega arith)
round (suc fuel) zero p lt dn on h = (
  0,
  omega arith,
  round_here fuel p lt (rw (position-zero (length p.lscontexts) p.next_context lt) at on),
)
round (suc fuel) (suc d) p lt dn on h = elim (Bool-cases (active_at p.lscontexts p.next_context)) [
  | inl now ↦ (0, omega arith, round_here fuel p lt now)
  | inr off ↦
      let on' : active_at p.lscontexts
            (position (length p.lscontexts) (wrap (length p.lscontexts) (p.next_context + 1)) d)
          ≡ true =
        subst (λ j. active_at p.lscontexts j ≡ true)
          (sym (
            position-wrap (length p.lscontexts) p.next_context d lt (omega arith)
            ∙ ap (position (length p.lscontexts) p.next_context) (omega arith)))
          on in
      let (k, le, s) = round fuel d (moved_on p) (ground arith) (omega arith) on' (omega arith) in
      (k + 1, omega arith, round_later fuel k p lt (omega arith) off s)
]

-- The index of a position.
position-of : (n i j : ℕ) → i < n → j < n → (d : ℕ) × (d < n) × (position n i d ≡ j)
position-of n i j h k = elim (dec_lt j i) [
  | yes before ↦ (j + n - i, omega arith, ground arith)
  | no after ↦ (j - i, omega arith, ground arith)
]

-- When `next_context_` points into the vector and some context is active, `get_context_round_robin`
-- returns within as many rounds as there are contexts: it hands out the first active context
-- counted cyclically from `next_context_`, adds a hold to it, and moves `next_context_` behind it.
pub get_context_round_robin-Serves :
    (p : ContextPool) (j : ℕ)
    → p.next_context < length p.lscontexts
    → j < length p.lscontexts
    → active_at p.lscontexts j ≡ true
    → (k : ℕ) × Serves p (get_context_round_robin (length p.lscontexts) p) k
get_context_round_robin-Serves p j lt jn on =
    let (d, dn, e) = position-of (length p.lscontexts) p.next_context j lt jn in
    let (k, _, s) =
      round (length p.lscontexts) d p lt dn
        (subst (λ i. active_at p.lscontexts i ≡ true) (sym e) on) dn in
    (k, s)
