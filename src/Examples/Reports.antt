-- ===== src/Examples/Reports.antt =====
-- The portal and the control service over a manager with one server.
use lserver.Prelude.{ℕ, ◌^◌, ◌%◌, ◌≡◌, ◌≢◌, ◌⊎◌, refl, true, false, [], ◌∷◌, Bool}
use lserver.Vm.{Vm}
use lserver.Http.{Http}
use lserver.Manager.{ServerManager}
use lserver.SessionPool.Reports.{total, empty-IsSound}
use lserver.Stats.{first_row}
use lserver.Control
use lserver.Control.Deltas.{Replies, get_stats_lem}
use lserver.Portal.{Work, Portal, print_stats}
use lserver.Signals.{Process, returned, handler}
use lserver.Signals.Exit.{Exits, handler_lem}
use lserver.Examples.Servers.{server}

abbrev one_server : ServerManager (Http × Vm)
one_server = record { servers = (0, server) ∷ []; handle_id = 1 }

abbrev portal : Portal (Http × Vm)
portal = record { manager = one_server; header_interval = 3; row = first_row; stream = [] }

abbrev clock : ℕ → ℕ
clock sh = 1_000_000

get_stats_lem_example :
    Replies clock
      (λ k s. total k s.pool % 2 ^ 64)
      one_server.servers
      (Control.get_stats one_server clock).1
    × Replies clock
        (λ k s. 0)
        one_server.servers
        (Control.get_stats (print_stats portal clock).manager clock).1
get_stats_lem_example = get_stats_lem portal clock clock (empty-IsSound 0, tt)

abbrev quiet : Work (Http × Vm)
quiet = (λ m. m, clock)

-- Another thread has made it a manager with no server.
abbrev stopping : Work (Http × Vm)
stopping = (λ m. record m { servers = [] }, clock)

abbrev process : Process (Http × Vm)
process = record { manager = one_server; shutdown_requested = false; signal_waits = 1 }

handler_lem_example :
    ((◌≡◌ {A = Bool} false false)
      × ((◌≡◌ {A = ℕ} 15 2) ⊎ (◌≡◌ {A = ℕ} 15 15))
      × Exits 2 15 process (handler 2 15 process false 15))
    ⊎ (((◌≡◌ {A = Bool} false false)
          × (◌≢◌ {A = ℕ} 15 2)
          × (◌≢◌ {A = ℕ} 15 15)
          × (handler 2 15 process false 15 ≡ returned (record process { signal_waits = 1 })))
        ⊎ ((◌≡◌ {A = Bool} false true)
            × (handler 2 15 process false 15 ≡ returned (record process { signal_waits = 0 }))))
handler_lem_example = handler_lem 2 15 process false 15 (record { armed = refl; idle = refl }, tt)
