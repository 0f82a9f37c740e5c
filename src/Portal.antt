-- ===== src/Portal.antt =====
-- src/portal.cpp and src/service.hpp: the thread that prints the statistics of all servers. The
-- static counter of rows, of src/stats.hpp, is passed along; a `service_func` is one step.
pub mod Rows
use lserver.Prelude.{ℕ, Bool, true, false, List, [], ◌∷◌, ◌++◌}
use lserver.Stats.{LsStats, print_rec}
use lserver.Manager
use lserver.Manager.{ServerManager}

-- The loop of `print_stats`, with what it writes.
unfoldable pub print_recs : List LsStats → (row header_interval : ℕ) → ℕ × List ℕ
unfolding print_rec
print_recs [] row header_interval = (row, [])
print_recs (item ∷ items) row header_interval =
    let (row', text) = print_rec item row header_interval in
    let (row'', rest) = print_recs items row' header_interval in (row'', text ++ rest)

-- What the thread reads and writes.
pub record Portal {ℓ} (S : Type ℓ) : Type ℓ where
  pub manager : ServerManager S
  pub header_interval : ℕ
  pub row : ℕ
  pub stream : List ℕ

-- The service is `looping` as long as no load of `shutdown_requested_` has given true.
pub data Looped {ℓ} (S : Type ℓ) : Type ℓ where
  looping ended : Portal S → Looped S

-- What the other threads have done to the servers since the last round, and what the clock says.
abbrev pub Work {ℓ} : Type ℓ → Type ℓ
Work S = (ServerManager S → ServerManager S) × (ℕ → ℕ)

module _ {ℓ} {S : Type ℓ} where
  unfoldable pub print_stats : Portal S → (clock : ℕ → ℕ) → Portal S
  unfolding print_recs Manager.get_stats
  print_stats p clock =
      let (manager, items) = Manager.get_stats p.manager clock in
      let (row, text) = print_recs items p.row p.header_interval in
      record p { manager = manager; row = row; stream = p.stream ++ text }

  -- A round begins with the load.
  unfoldable pub service_loop : List (Bool × Work S) → Portal S → Looped S
  unfolding print_stats
  service_loop [] p = looping p
  service_loop ((true, (others, clock)) ∷ rounds) p = ended p
  service_loop ((false, (others, clock)) ∷ rounds) p =
      service_loop rounds (print_stats (record p { manager = others p.manager }) clock)
