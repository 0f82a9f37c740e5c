-- ===== src/Examples/Machine.antt =====
-- Two sessions and one resource of src/lsvm.hpp; the instructions of a script.
use mathlib.Core.List.{Perm}
use lserver.Prelude.{ℕ, ◌≡◌, ◌≢◌, refl, true, false, none, some, ◌⊎◌, [], ◌∷◌, lookup, assign}
use lserver.Vm.{VmResource, Vm, insert, try_lock, unlock, cleanup}
use lserver.Vm.Exclusion.{World, start, next, inserts, locks, after_lock, mutual_exclusion}
use lserver.Vm.Unlock.{unlock_any, cleanup_lem}
use lserver.Instruction.{download, BaseOp, push, get_instance}
use lserver.Instruction.Order.{IsSorted, push_lem}

abbrev taken : Vm
taken = record { resources = (7, record { taken = true; holder_id = 1 }) ∷ [] }

abbrev locked : World
locked =
    after_lock (record { vm = insert (record { resources = [] }) 0 7; holds = λ t m. false }) 1 7
      (try_lock (insert (record { resources = [] }) 0 7) 1 7)

mutual_exclusion_example : ◌≡◌ {A = ℕ} 1 1
unfolding lookup try_lock insert assign
mutual_exclusion_example =
    mutual_exclusion {w = locked} 1 1 7 (next (next start (inserts 0 7 refl)) (locks 1 7)) refl refl

unlock_any_example :
    ((try_lock taken 3 7).1 ≡ false)
    × ((try_lock (unlock taken 0 2 7) 3 7).1 ≡ true)
    × (lookup 7 (try_lock (unlock taken 0 2 7) 3 7).0.resources
        ≡ some (record { taken = true; holder_id = 3 }))
unlock_any_example = unlock_any taken 0 1 2 3 7 (unfold lookup in refl)

cleanup_lem_example :
    ((lookup 7 taken.resources ≡ none) × (lookup 7 (cleanup taken 2).resources ≡ none))
    ⊎ ((r : VmResource) × (u : VmResource) × (lookup 7 taken.resources ≡ some r)
        × (lookup 7 (cleanup taken 2).resources ≡ some u)
        × (((r.holder_id ≡ 2) × (u ≡ record r { taken = false })) ⊎ ((r.holder_id ≢ 2) × (u ≡ r))))
cleanup_lem_example = cleanup_lem taken 2 7

abbrev early : BaseOp
early = get_instance download 3 100

abbrev late : BaseOp
late = get_instance download 8 200

push_lem_example :
    IsSorted (push early (late ∷ [])) × Perm (push early (late ∷ [])) (early ∷ late ∷ [])
push_lem_example = push_lem early (late ∷ []) (tt, tt)
