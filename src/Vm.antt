-- ===== src/Vm.antt =====
-- src/lsvm.hpp: the exclusive resources of the virtual machine that all scripts share. A resource
-- is changed under its mutex, so each pass of the loop of `lock`, which waits on a condition variable
-- with a time limit, is one step, and so are `unlock` and `cleanup`, whose visits concern one resource
-- each. The map itself is only read-locked when `resources_[num]` makes a resource: this is a
-- step of its own, which no other use of the map may overlap. Sessions are numbers.
pub mod Exclusion
pub mod Unlock
use lserver.Prelude.{
  ℕ, Bool, true, false, Option, none, some, List, [], ◌∷◌, ◌==◌, if◌then◌else◌, Map, lookup, assign,
}

pub record VmResource : Type 0 where
  pub taken : Bool
  pub holder_id : ℕ

pub record Vm : Type 0 where
  pub resources : Map VmResource

-- `resources_[num]`: a missing resource is made, its `holder_id` left with what `memory` held.
pub resource : Vm → (memory num : ℕ) → VmResource
resource vm memory num = elim (lookup num vm.resources) [
  | none ↦ record { taken = false; holder_id = memory }
  | some r ↦ r
]

pub put : Vm → ℕ → VmResource → Vm
put vm num r = record { resources = assign num r vm.resources }

-- `resources_[num]`, for its effect on the map.
unfoldable pub insert : Vm → (memory num : ℕ) → Vm
unfolding resource put
insert vm memory num = put vm num (resource vm memory num)

-- A pass of the loop of `lock`: when `wait_for` finds the resource free, it is taken. The resource is
-- there, as `lock` has inserted it before and nothing is ever erased.
unfoldable pub try_lock : Vm → (session_id num : ℕ) → Vm × Bool
unfolding put
try_lock vm session_id num = elim (lookup num vm.resources) [
  | none ↦ (vm, false)
  | some res ↦
      if res.taken
      then (vm, false)
      else (put vm num (record { taken = true; holder_id = session_id }), true)
]

pub data Locked : Type 0 where
  acquired : Vm → Locked
  cancelled : Vm → Locked
  waiting : Vm → Locked

-- The loop of `lock`, once `resources_[num]` is there. A round is what `cancellation_request` reads,
-- and what the other threads have done to the machine by the time that `wait_for` returns; the last
-- case is a thread that still waits.
unfoldable pub lock_rounds : List (Bool × (Vm → Vm)) → Vm → (session_id num : ℕ) → Locked
unfolding try_lock
lock_rounds [] vm session_id num = waiting vm
lock_rounds ((cancel, others) ∷ rounds) vm session_id num =
    let (u, available) = try_lock (others vm) session_id num in
    let rest = lock_rounds rounds u session_id num in
    if cancel then cancelled vm else (if available then acquired u else rest)

unfoldable pub lock : List (Bool × (Vm → Vm)) → Vm → (memory session_id num : ℕ) → Locked
unfolding lock_rounds insert
lock rounds vm memory session_id num = lock_rounds rounds (insert vm memory num) session_id num

unfoldable pub unlock : Vm → (memory session_id num : ℕ) → Vm
unfolding resource put
unlock vm memory session_id num =
    let res = resource vm memory num in put vm num (record res { taken = false })

unfoldable pub release : ℕ → Map VmResource → Map VmResource
release session_id [] = []
release session_id ((num, res) ∷ m) =
    (num, if res.holder_id == session_id then record res { taken = false } else res)
    ∷ release session_id m

unfoldable pub cleanup : Vm → (session_id : ℕ) → Vm
unfolding release
cleanup vm session_id = record { resources = release session_id vm.resources }
