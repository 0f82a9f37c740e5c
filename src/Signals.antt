-- ===== src/Signals.antt =====
-- src/signal_manager.hpp with the callback that src/main.cpp gives it: how the program is told to
-- stop. The numbers of the signals are those of the system, and asio reports them to the handler.
pub mod Exit
use lserver.Prelude.{ℕ, suc, ◌-◌, Bool, true, false, ◌||◌, ◌==◌, if◌then◌else◌}
use lserver.Manager
use lserver.Manager.{ServerManager, Managed, done, threw, blocked, null}

-- What the handler works on; `signal_waits` are the calls of `async_wait` under way.
pub record Process {ℓ} (S : Type ℓ) : Type ℓ where
  pub manager : ServerManager S
  pub shutdown_requested : Bool  -- of the portal
  pub signal_waits : ℕ

pub data Handled {ℓ} (S : Type ℓ) : Type ℓ where
  returned : Process S → Handled S
  terminated : Handled S  -- by an exception that leaves the thread
  stop_waits : Handled S

module _ {ℓ} {S : Type ℓ} (sigint sigterm : ℕ) where
  unfoldable pub async_wait : Process S → Process S
  async_wait p = record p { signal_waits = suc p.signal_waits }

  -- The rest of the callback, once the manager's `stop` is over: `portal.stop()`.
  unfoldable pub portal_stop : Process S → Managed S (Unit {0}) → Handled S
  portal_stop p (done m _) = returned (record p { manager = m; shutdown_requested = true })
  portal_stop p (threw m) = terminated
  portal_stop p blocked = stop_waits
  portal_stop p null = terminated

  unfoldable pub exit_cb : Process S → Handled S
  unfolding portal_stop Manager.stop_all
  exit_cb p = portal_stop p (Manager.stop_all p.manager)

  unfoldable pub handler : Process S → (error : Bool) → (signal_number : ℕ) → Handled S
  unfolding async_wait exit_cb
  handler p error signal_number =
      let p' = record p { signal_waits = p.signal_waits - 1 } in
      if error
      then returned p'
      else if signal_number == sigint || signal_number == sigterm
      then exit_cb p'
      else returned (async_wait p')
