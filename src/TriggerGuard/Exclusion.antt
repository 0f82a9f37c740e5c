-- ===== src/TriggerGuard/Exclusion.antt =====
-- A trigger of src/syncronization_utils.hpp and the guards that are alive exclude one another.
use lserver.Prelude.{
  ℕ, suc, ◌+◌, ◌^◌, ◌<◌, ◌≡◌, refl, ap, ◌∙◌, true, List, [], ◌∷◌, ◌++◌, arith, if◌then◌else◌,
}
use lserver.TriggerGuard.{
  TriggerGuard, ScopedGuard, went_off, new, trigger, acquire_scoped_guard, destroy,
}

-- The trigger, and the guards in scope.
pub record World : Type 0 where
  pub guard : TriggerGuard
  pub alive : List ScopedGuard

-- How many guards took a lock.
unfoldable pub holding : List ScopedGuard → ℕ
holding [] = 0
holding (g ∷ gs) = let rest = holding gs in if g.triggered then rest else suc rest

abbrev pub acquired : World → TriggerGuard × ScopedGuard → World
acquired w (t, g) = record { guard = t; alive = g ∷ w.alive }

pub data Step (w : World) : World → Type 0 where
  acquires : holding w.alive + 1 < 2 ^ 64 → Step w (acquired w (acquire_scoped_guard w.guard))
  destroys :
      (before : List ScopedGuard) (g : ScopedGuard) (others : List ScopedGuard)
      → w.alive ≡ before ++ g ∷ others
      → Step w (record { guard = destroy g w.guard; alive = before ++ others })
  triggers :
      (t : TriggerGuard)
      → trigger w.guard ≡ went_off t
      → Step w (record { guard = t; alive = w.alive })

pub data Reach : World → Type 0 where
  start : Reach (record { guard = new; alive = [] })
  next : {w u : World} → Reach w → Step w u → Reach u

record IsCounted (w : World) : Type 0 where
  counted : w.guard.ref_cnt ≡ holding w.alive
  small : holding w.alive < 2 ^ 64
  quiet : w.guard.triggered ≡ true → holding w.alive ≡ 0

holding-append :
    (xs : List ScopedGuard) (g : ScopedGuard) (ys : List ScopedGuard)
    → holding (xs ++ g ∷ ys) ≡ holding (xs ++ ys) + (if g.triggered then 0 else 1)
unfolding holding
holding-append [] g ys = ground arith
holding-append (x ∷ xs) g ys = ground (arith, holding-append xs g ys)

Step-IsCounted : {w u : World} → Step w u → IsCounted w → IsCounted u
unfolding holding acquire_scoped_guard destroy trigger
Step-IsCounted {w} (acquires room) v = record {
  counted = ground (arith, v.counted);
  small = ground (arith, v.small);
  quiet = λ on. ground (arith, v.quiet);
}
Step-IsCounted {w} (destroys before g others e) v =
    let h : holding w.alive ≡ holding (before ++ others) + (if g.triggered then 0 else 1) =
      ap holding e ∙ holding-append before g others in
    record {
      counted = ground (arith, h, v.counted, v.small);
      small = ground (arith, h, v.small);
      quiet = λ on. ground (arith, h, v.quiet);
    }
Step-IsCounted {w} (triggers t e) v = record {
  counted = ground (arith, e, v.counted);
  small = v.small;
  quiet = λ on. ground (arith, e, v.counted);
}

Reach-IsCounted : {w : World} → Reach w → IsCounted w
unfolding holding
Reach-IsCounted start = record { counted = refl; small = omega arith; quiet = λ on. refl }
Reach-IsCounted (next r s) = Step-IsCounted s (Reach-IsCounted r)

-- In every state that scoped guards coming and going and triggers going off reach from a new
-- trigger, with fewer than 2 ^ 64 guards that took a lock, the count is the number of those alive,
-- and once the trigger has gone off there is none.
pub trigger_excludes :
    {w : World}
    → Reach w
    → (w.guard.ref_cnt ≡ holding w.alive) × (w.guard.triggered ≡ true → holding w.alive ≡ 0)
trigger_excludes r = let v = Reach-IsCounted r in (v.counted, v.quiet)
