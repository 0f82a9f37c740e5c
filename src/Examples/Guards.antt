-- ===== src/Examples/Guards.antt =====
-- A guard of src/syncronization_utils.hpp that comes and goes before the trigger goes off.
use lserver.Prelude.{◌≡◌, refl, true, [], arith}
use lserver.TriggerGuard.{new, acquire_scoped_guard, destroy, trigger}
use lserver.TriggerGuard.Exclusion.{
  World, Reach, start, next, acquires, destroys, triggers, holding, acquired, trigger_excludes,
}

abbrev guarded : World
guarded = acquired (record { guard = new; alive = [] }) (acquire_scoped_guard new)

abbrev left : World
left = record { guard = destroy (acquire_scoped_guard new).1 guarded.guard; alive = [] }

abbrev off : World
off = record { guard = record { triggered = true; ref_cnt = 0 }; alive = [] }

gone_off : Reach off
unfolding holding trigger acquire_scoped_guard destroy
gone_off =
    next
      (next (next start (acquires (omega arith)))
        (destroys [] (acquire_scoped_guard new).1 [] refl))
      (triggers (record { triggered = true; ref_cnt = 0 }) refl)

trigger_excludes_example :
    (off.guard.ref_cnt ≡ holding off.alive) × (off.guard.triggered ≡ true → holding off.alive ≡ 0)
trigger_excludes_example = trigger_excludes gone_off
