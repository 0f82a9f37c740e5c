-- ===== src/TriggerGuard.antt =====
-- src/syncronization_utils.hpp: TriggerGuard and its scoped guards. Each method locks the mutex or is
-- one atomic access, and so is one step; a `trigger` whose condition does not hold waits.
pub mod Exclusion
use lserver.Prelude.{ℕ, Bool, true, false, not, ◌==◌, if◌then◌else◌, add_word, sub_word}

pub record TriggerGuard : Type 0 where
  pub triggered : Bool
  pub ref_cnt : ℕ

pub record ScopedGuard : Type 0 where
  pub triggered : Bool

pub data Trigger : Type 0 where
  went_off : TriggerGuard → Trigger
  waits : Trigger
  inactive : Trigger  -- `InactiveTriggerGuardInvoked`

abbrev pub new : TriggerGuard
new = record { triggered = false; ref_cnt = 0 }

unfoldable pub trigger : TriggerGuard → Trigger
trigger t =
    if t.triggered
    then inactive
    else if t.ref_cnt == 0
    then went_off (record t { triggered = true })
    else waits

unfoldable pub acquire_scoped_guard : TriggerGuard → TriggerGuard × ScopedGuard
acquire_scoped_guard t = (
  if t.triggered then t else record t { ref_cnt = add_word t.ref_cnt 1 },
  record { triggered = t.triggered },
)

unfoldable pub release_scoped_guard : TriggerGuard → TriggerGuard
release_scoped_guard t = record t { ref_cnt = sub_word t.ref_cnt 1 }

-- `~ScopedGuard`
unfoldable pub destroy : ScopedGuard → TriggerGuard → TriggerGuard
unfolding release_scoped_guard
destroy g t = if g.triggered then t else release_scoped_guard t
