-- ===== src/Control/Deltas.antt =====
-- What a request for statistics finds, and what the next one is left (src/control_server.cpp).
use lserver.Prelude.{ℕ, ◌^◌, ◌%◌, ◌≡◌, refl, ap, ◌∙◌, List, [], ◌∷◌, map, Map}
use lserver.Pool.{Pool}
use lserver.Portal.{Portal, print_stats}
use lserver.SessionPool
use lserver.SessionPool.{SessionPool}
use lserver.SessionPool.Reports.{
  Counter, transactions, received, sent, value, total, IsSound, report-value, report-IsSound,
  report-total, report-base,
}
use lserver.Server.Requests
use lserver.Server.{Server}
use lserver.Manager
use lserver.Manager.{ServerManager, each_server, samples}
use lserver.Control.{StatsRec, add_stats_rec, get_stats}

abbrev pub delta : Counter → StatsRec → ℕ
delta transactions r = r.stats_transactions_cnt_delta
delta received r = r.stats_bytes_received_delta
delta sent r = r.stats_bytes_sent_delta

module _ {ℓ} {S : Type ℓ} where
  -- The pools of all servers have their counters in order.
  abbrev pub AllSound : Map (Server S) → Type 0
  AllSound [] = Unit
  AllSound ((sh, s) ∷ servers) = IsSound s.pool × AllSound servers

  -- A reply with one record for each server, in the order of the table; its deltas are `amounts`.
  abbrev pub Replies :
      (clock : ℕ → ℕ) → (Counter → Server S → ℕ) → Map (Server S) → List StatsRec → Type 0
  Replies clock amounts [] [] = Unit
  Replies clock amounts [] (r ∷ rs) = ⊥
  Replies clock amounts (entry ∷ servers) [] = ⊥
  Replies clock amounts ((sh, s) ∷ servers) (r ∷ rs) =
      (r.time ≡ clock sh)
      × (r.stats_accepted_cnt ≡ s.accepted_cnt)
      × (r.num_items_total ≡ s.pool.base.stats.num_items_total)
      × (r.num_items_in_flight ≡ s.pool.base.stats.num_items_in_flight)
      × ((k : Counter) → delta k r ≡ amounts k s)
      × Replies clock amounts servers rs

  delta-value :
      (k : Counter) (s : Server S) (time : ℕ)
      → delta k (add_stats_rec (Requests.get_stats s time).1)
        ≡ value k (SessionPool.get_stats s.pool).1.1
  unfolding add_stats_rec Requests.get_stats
  delta-value transactions s time = refl
  delta-value received s time = refl
  delta-value sent s time = refl

  -- The first reply.
  samples-Replies :
      (clock : ℕ → ℕ) (servers : Map (Server S))
      → AllSound servers
      → Replies clock
          (λ k s. total k s.pool % 2 ^ 64)
          servers
          (map add_stats_rec (samples clock servers))
  unfolding samples
  samples-Replies clock [] v = tt
  samples-Replies clock ((sh, s) ∷ servers) v = (
    unfold add_stats_rec Requests.get_stats in refl,
    unfold add_stats_rec Requests.get_stats in refl,
    unfold add_stats_rec Requests.get_stats SessionPool.get_stats in refl,
    unfold add_stats_rec Requests.get_stats SessionPool.get_stats in refl,
    λ k. delta-value k s (clock sh) ∙ report-value k s.pool v.0,
    samples-Replies clock servers v.1,
  )

  second-Replies :
      (clock clock' : ℕ → ℕ) (servers : Map (Server S))
      → AllSound servers
      → Replies clock'
          (λ k s. 0)
          servers
          (map add_stats_rec
            (samples clock' (each_server (λ sh s. (Requests.get_stats s (clock sh)).0) servers)))
  unfolding samples each_server
  second-Replies clock clock' [] v = tt
  second-Replies clock clock' ((sh, s) ∷ servers) v = (
    unfold add_stats_rec Requests.get_stats in refl,
    unfold add_stats_rec Requests.get_stats in refl,
    unfold add_stats_rec Requests.get_stats SessionPool.get_stats in
        ap (λ (b : Pool). b.stats.num_items_total) (report-base s.pool),
    unfold add_stats_rec Requests.get_stats SessionPool.get_stats in
        ap (λ (b : Pool). b.stats.num_items_in_flight) (report-base s.pool),
    λ k.
        delta-value k (Requests.get_stats s (clock sh)).0 (clock' sh)
        ∙ unfold Requests.get_stats in
          (report-value k (SessionPool.get_stats s.pool).0 (report-IsSound s.pool v.0)
            ∙ ap (λ n. n % 2 ^ 64) (report-total k s.pool)),
    second-Replies clock clock' servers v.1,
  )

  -- When the pools of all servers have their counters in order, a request for statistics is
  -- answered with a record for each server, in the order of the handles: its time, the
  -- connections accepted, the items of its pool, and for each of the three counters what is
  -- pending in its sessions, modulo 2 ^ 64. If the portal has printed its rows just before, the
  -- same request finds the same numbers but zero for each of the three counters.
  pub get_stats_lem :
      (p : Portal S) (clock clock' : ℕ → ℕ)
      → AllSound p.manager.servers
      → Replies clock
          (λ k s. total k s.pool % 2 ^ 64)
          p.manager.servers
          (get_stats p.manager clock).1
        × Replies clock'
            (λ k s. 0)
            p.manager.servers
            (get_stats (print_stats p clock).manager clock').1
  unfolding get_stats print_stats Manager.get_stats
  get_stats_lem p clock clock' v =
      (samples-Replies clock p.manager.servers v, second-Replies clock clock' p.manager.servers v)
