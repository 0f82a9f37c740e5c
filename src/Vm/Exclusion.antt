-- ===== src/Vm/Exclusion.antt =====
-- Sessions that unlock only what they hold exclude one another (src/lsvm.hpp).
use lserver.Prelude.{
  ℕ, ◌≡◌, refl, Bool, true, false, not, ◌&&◌, ◌||◌, none, some, [], ◌∷◌, arith, ◌==◌, if◌then◌else◌,
  Map, lookup, lookup-assign,
}
use lserver.Vm.{VmResource, Vm, resource, insert, try_lock, unlock, cleanup, release}

-- The machine, and which session believes that it holds which resource.
pub record World : Type 0 where
  pub vm : Vm
  pub holds : ℕ → ℕ → Bool

-- What a session believes after a pass of `lock`, an `unlock` and a `cleanup`.
abbrev pub after_lock : World → (session num : ℕ) → Vm × Bool → World
after_lock w s n (vm, available) = record {
  vm = vm;
  holds = λ t m. w.holds t m || (available && (t == s && m == n));
}

abbrev pub after_unlock : World → (session num : ℕ) → Vm → World
after_unlock w s n vm = record { vm = vm; holds = λ t m. w.holds t m && not (t == s && m == n) }

abbrev pub after_cleanup : World → (session : ℕ) → Vm → World
after_cleanup w s vm = record { vm = vm; holds = λ t m. w.holds t m && not (t == s) }

pub data Step (w : World) : World → Type 0 where
  inserts :
      (memory n : ℕ)
      → lookup n w.vm.resources ≡ none
      → Step w (record w { vm = insert w.vm memory n })
  locks : (s n : ℕ) → Step w (after_lock w s n (try_lock w.vm s n))
  unlocks :
      (memory s n : ℕ) → w.holds s n ≡ true → Step w (after_unlock w s n (unlock w.vm memory s n))
  cleans : (s : ℕ) → Step w (after_cleanup w s (cleanup w.vm s))

pub data Reach : World → Type 0 where
  start : Reach (record { vm = record { resources = [] }; holds = λ t m. false })
  next : {w u : World} → Reach w → Step w u → Reach u

-- What a session believes to hold is taken in its name.
abbrev pub IsHeld : World → Type 0
IsHeld w =
    (s n : ℕ)
    → w.holds s n ≡ true
    → lookup n w.vm.resources ≡ some (record { taken = true; holder_id = s })

pub lookup-release :
    (s n : ℕ) (m : Map VmResource)
    → lookup n (release s m) ≡ elim (lookup n m) [
      | none ↦ none
      | some r ↦ some (if r.holder_id == s then record r { taken = false } else r)
    ]
unfolding lookup release
lookup-release s n [] = refl
lookup-release s n ((k, r) ∷ m) = ground (arith, lookup-release s n m)

locks-IsHeld : (w : World) (s n : ℕ) → IsHeld w → IsHeld (after_lock w s n (try_lock w.vm s n))
unfolding try_lock
locks-IsHeld w s n h t m k =
    ground (arith, h t m, lookup-assign n m (record { taken = true; holder_id = s }) w.vm.resources)

inserts-IsHeld :
    (w : World) (memory n : ℕ)
    → lookup n w.vm.resources ≡ none
    → IsHeld w
    → IsHeld (record w { vm = insert w.vm memory n })
unfolding insert
inserts-IsHeld w memory n missing h t m k =
    ground (arith, h t m k, missing, lookup-assign n m (resource w.vm memory n) w.vm.resources)

unlocks-IsHeld :
    (w : World) (memory s n : ℕ)
    → w.holds s n ≡ true
    → IsHeld w
    → IsHeld (after_unlock w s n (unlock w.vm memory s n))
unfolding unlock
unlocks-IsHeld w memory s n mine h t m k = ground (
  arith,
  h t m,
  h s n mine,
  lookup-assign n m (record (resource w.vm memory n) { taken = false }) w.vm.resources,
)

cleans-IsHeld : (w : World) (s : ℕ) → IsHeld w → IsHeld (after_cleanup w s (cleanup w.vm s))
unfolding cleanup
cleans-IsHeld w s h t m k = ground (arith, h t m, lookup-release s m w.vm.resources)

pub Step-IsHeld : {w u : World} → Step w u → IsHeld w → IsHeld u
Step-IsHeld {w} (inserts memory n missing) h = inserts-IsHeld w memory n missing h
Step-IsHeld {w} (locks s n) h = locks-IsHeld w s n h
Step-IsHeld {w} (unlocks memory s n mine) h = unlocks-IsHeld w memory s n mine h
Step-IsHeld {w} (cleans s) h = cleans-IsHeld w s h

pub Reach-IsHeld : {w : World} → Reach w → IsHeld w
Reach-IsHeld start = λ s n k. absurd (cc k)
Reach-IsHeld (next r st) = Step-IsHeld st (Reach-IsHeld r)

-- In every state that insertions of resources, which no other use of the map overlaps, passes of
-- `lock`, `unlock`s by sessions that hold what they unlock, and `cleanup`s reach from a machine
-- with no resources, two sessions that both hold a resource are the same session.
pub mutual_exclusion :
    {w : World} (s t n : ℕ) → Reach w → w.holds s n ≡ true → w.holds t n ≡ true → s ≡ t
mutual_exclusion s t n r hs ht = ground (arith, Reach-IsHeld r s n hs, Reach-IsHeld r t n ht)
