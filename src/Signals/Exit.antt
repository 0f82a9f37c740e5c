-- ===== src/Signals/Exit.antt =====
-- How a signal ends the program (src/signal_manager.hpp and src/main.cpp).
use lserver.Prelude.{
  ℕ, suc, ◌-◌, ◌≡◌, ◌≢◌, refl, ap, ◌⊎◌, inl, inr, Bool, true, false, none, arith, lookup, if_elim,
  ◌==◌, ◌||◌, Bool-cases,
}
use lserver.Manager.Stopping.{AllReady, ClosedAt, stop_all_lem}
use lserver.Signals.{Process, Handled, returned, portal_stop, exit_cb, handler, async_wait}

module _ {ℓ} {S : Type ℓ} (sigint sigterm : ℕ) where
  -- All servers are closed and the portal is told to end; no signal is waited for.
  abbrev pub Exits : Process S → Handled S → Type ℓ
  Exits p r =
      (q : Process S) × (r ≡ returned q)
      × (q.shutdown_requested ≡ true)
      × (q.signal_waits ≡ p.signal_waits - 1)
      × ((sh : ℕ) → lookup sh p.manager.servers ≢ none → ClosedAt q.manager.servers sh)

  exit_cb-Exits :
      (p : Process S)
      → AllReady p.manager.servers
      → Exits p (exit_cb sigint sigterm (record p { signal_waits = p.signal_waits - 1 }))
  unfolding exit_cb portal_stop
  exit_cb-Exits p ready =
      let (m, e, closed) = stop_all_lem p.manager ready in
      let p' = record p { signal_waits = p.signal_waits - 1 } in
      (
        record p' { manager = m; shutdown_requested = true },
        ap (portal_stop sigint sigterm p') e,
        refl,
        refl,
        closed,
      )

  -- When no server has been stopped and none is in a handler: SIGINT or SIGTERM without error
  -- stops every server of the manager and then tells the portal to end, and no further signal is
  -- waited for; another signal is waited past, with nothing else changed; an error ends the
  -- waiting and changes nothing else.
  pub handler_lem :
      (p : Process S) (error : Bool) (signal_number : ℕ)
      → AllReady p.manager.servers
      → ((error ≡ false)
          × ((signal_number ≡ sigint) ⊎ (signal_number ≡ sigterm))
          × Exits p (handler sigint sigterm p error signal_number))
        ⊎ (((error ≡ false)
              × (signal_number ≢ sigint)
              × (signal_number ≢ sigterm)
              × (handler sigint sigterm p error signal_number
                  ≡ returned (record p { signal_waits = suc (p.signal_waits - 1) })))
            ⊎ ((error ≡ true)
                × (handler sigint sigterm p error signal_number
                    ≡ returned (record p { signal_waits = p.signal_waits - 1 }))))
  unfolding handler
  handler_lem p true signal_number ready = inr (inr (refl, refl))
  handler_lem p false signal_number ready =
      elim (Bool-cases (signal_number == sigint || signal_number == sigterm)) [
        | inl ends ↦ inl (
          refl,
          ground (arith, ends),
          if_elim (Exits p) (signal_number == sigint || signal_number == sigterm) _ _
              (λ _. exit_cb-Exits p ready) (λ off. absurd (ground (arith, ends, off))),
        )
        | inr other ↦ inr (
            inl (
              refl,
              λ e. ground (arith, other, e),
              λ e. ground (arith, other, e),
              unfold async_wait in ground (arith, other),
            ))
      ]
