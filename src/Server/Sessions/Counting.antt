-- ===== src/Server/Sessions/Counting.antt =====
-- Counting the sessions of a server (src/server.hpp) that have not ended.
use lserver.Prelude.{
  ℕ, ◌+◌, ◌≤◌, ◌≡◌, ap, Bool, false, not, ◌&&◌, Option, none, some, [], ◌∷◌, arith, ◌==◌,
  if◌then◌else◌, if_elim, length, Map, lookup, assign,
}
use lserver.Server.{Object}

module _ {ℓ} {S : Type ℓ} where
  -- A session that has been set up and has not ended, and one such on the context `i`.
  abbrev pub is_live : Option (Object S) → Bool
  is_live none = false
  is_live (some o) = not o.session.invoked

  abbrev pub counts_on : ℕ → Option (Object S) → ℕ
  counts_on i none = 0
  counts_on i (some o) = if not o.session.invoked && o.context == i then 1 else 0

  -- The live sessions on the context `i`.
  abbrev pub sessions_on : ℕ → Map (Object S) → ℕ
  sessions_on i [] = 0
  sessions_on i ((p, o) ∷ objects) = counts_on i (some o) + sessions_on i objects

  pub sessions_on-assign :
      (i p : ℕ) (o : Object S) (objects : Map (Object S))
      → sessions_on i (assign p o objects) + counts_on i (lookup p objects)
        ≡ sessions_on i objects + counts_on i (some o)
  unfolding assign lookup
  sessions_on-assign i p o [] = omega arith
  sessions_on-assign i p o ((q, o') ∷ objects) =
      let rest = sessions_on-assign i p o objects in
      if_elim
        (λ (m : Map (Object S)).
          sessions_on i m + counts_on i (lookup p ((q, o') ∷ objects))
          ≡ sessions_on i ((q, o') ∷ objects) + counts_on i (some o))
        (q == p) ((q, o) ∷ objects) ((q, o') ∷ assign p o objects)
        (λ e.
          let here = ap (λ b. counts_on i (if b then some o' else lookup p objects)) e in
          omega (arith, here))
        (λ e.
          let there = ap (λ b. counts_on i (if b then some o' else lookup p objects)) e in
          omega (arith, there, rest))

  pub sessions_on-lookup :
      (i p : ℕ) (objects : Map (Object S)) → counts_on i (lookup p objects) ≤ sessions_on i objects
  unfolding lookup
  sessions_on-lookup i p [] = omega arith
  sessions_on-lookup i p ((q, o) ∷ objects) =
      if_elim (λ t. counts_on i t ≤ counts_on i (some o) + sessions_on i objects) (q == p) (some o)
        (lookup p objects) (λ _. omega arith) (λ _. omega (arith, sessions_on-lookup i p objects))

  pub sessions_on-le : (i : ℕ) (objects : Map (Object S)) → sessions_on i objects ≤ length objects
  sessions_on-le i [] = omega arith
  sessions_on-le i ((p, o) ∷ objects) = ground (arith, sessions_on-le i objects)
