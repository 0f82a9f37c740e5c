-- ===== src/Vm/Unlock.antt =====
-- What `unlock`, `cleanup` and waiting do to one resource of src/lsvm.hpp.
use lserver.Prelude.{
  ℕ, zero, suc, ◌≡◌, ◌≢◌, refl, Bool, true, false, some, none, ◌⊎◌, inl, inr, Option-cases,
  ℕ_discrete, List, [], ◌∷◌, arith, lookup, assign, lookup-assign,
}
use lserver.Vm.{VmResource, Vm, resource, try_lock, waiting, lock_rounds, unlock, cleanup}
use lserver.Vm.Exclusion.{lookup-release}

-- While a session holds a resource a pass of `lock` by another finds it taken; after an `unlock` by
-- any session, the holder or not, the next pass of `lock` gets it and becomes its holder.
pub unlock_any :
    (vm : Vm) (memory s t u n : ℕ)
    → lookup n vm.resources ≡ some (record { taken = true; holder_id = s })
    → ((try_lock vm u n).1 ≡ false)
      × ((try_lock (unlock vm memory t n) u n).1 ≡ true)
      × (lookup n (try_lock (unlock vm memory t n) u n).0.resources
          ≡ some (record { taken = true; holder_id = u }))
unfolding try_lock unlock
unlock_any vm memory s t u n held =
    (ground arith, ground (arith, freed), ground (arith, freed, taken))
  where
    freed :
        lookup n (assign n (record (resource vm memory n) { taken = false }) vm.resources)
        ≡ some (record { taken = false; holder_id = s })
    freed =
        ground
          (arith, lookup-assign n n (record (resource vm memory n) { taken = false }) vm.resources)

    taken :
        lookup n (
          assign n
            (record { taken = true; holder_id = u })
            (assign n (record (resource vm memory n) { taken = false }) vm.resources))
        ≡ some (record { taken = true; holder_id = u })
    taken = ground (
      arith,
      lookup-assign n n (record { taken = true; holder_id = u })
          (assign n (record (resource vm memory n) { taken = false }) vm.resources),
    )

-- After `cleanup` of a session the machine has the same resources as before: one with that session
-- as holder is free, and one with another holder is just as it was.
pub cleanup_lem :
    (vm : Vm) (s n : ℕ)
    → ((lookup n vm.resources ≡ none) × (lookup n (cleanup vm s).resources ≡ none))
      ⊎ ((r : VmResource) × (u : VmResource) × (lookup n vm.resources ≡ some r)
          × (lookup n (cleanup vm s).resources ≡ some u)
          × (((r.holder_id ≡ s) × (u ≡ record r { taken = false }))
              ⊎ ((r.holder_id ≢ s) × (u ≡ r))))
unfolding cleanup
cleanup_lem vm s n = elim (Option-cases (lookup n vm.resources)) [
  | inl missing ↦ inl (missing, ground (arith, lookup-release s n vm.resources))
  | inr (r, found) ↦ elim (ℕ_discrete r.holder_id s) [
    | yes mine ↦ inr (
      r,
      record r { taken = false },
      found,
      ground (arith, lookup-release s n vm.resources),
      inl (mine, refl),
    )
    | no other ↦
        inr (r, r, found, ground (arith, lookup-release s n vm.resources), inr (other, refl))
  ]
]

-- Rounds in which nobody cancels the script or touches the machine.
abbrev pub undisturbed : ℕ → List (Bool × (Vm → Vm))
undisturbed zero = []
undisturbed (suc k) = (false, λ vm. vm) ∷ undisturbed k

lock_rounds_wait :
    (k : ℕ) (vm : Vm) (s t n : ℕ)
    → lookup n vm.resources ≡ some (record { taken = true; holder_id = s })
    → (u : Vm) × (lock_rounds (undisturbed k) vm t n ≡ waiting u)
      × (lookup n u.resources ≡ some (record { taken = true; holder_id = s }))
unfolding lock_rounds
lock_rounds_wait zero vm s t n held = (vm, refl, held)
lock_rounds_wait (suc k) vm s t n held =
    let (u, e, h) = lock_rounds_wait k vm s t n held in (u, ground (arith, e), h)
