-- ===== src/Server/Stop.antt =====
-- The end of the server of src/server.hpp.
use lserver.Prelude.{
  ℕ, ◌≡◌, refl, sym, subst, Bool, true, false, List, [], ◌∷◌, map, arith, All, if_elim, ◌==◌,
}
use lserver.ContextPool
use lserver.ContextPool.{ContextPool}
use lserver.LsContext
use lserver.LsContext.{LsContext}
use lserver.TriggerGuard
use lserver.TriggerGuard.{TriggerGuard, Trigger, went_off, waits, inactive}
use lserver.Session.{Session, Protocol}
use lserver.Server.{
  Server, handled, Stopped, stopped, stop_waits, stop_threw, close, stop, accept_event, on_accept,
  leave,
}

-- Inactive, with no thread running.
abbrev pub IsQuiet : LsContext → Type 0
IsQuiet c = (c.active ≡ false) × (c.running ≡ 0)

stop-IsQuiet : (c : LsContext) → IsQuiet (LsContext.stop c true).0
unfolding LsContext.stop LsContext.wait LsContext.removable
stop-IsQuiet c = ground arith

All-IsQuiet : (cs : List LsContext) → All IsQuiet (map (λ c. (LsContext.stop c true).0) cs)
All-IsQuiet [] = tt
All-IsQuiet (c ∷ cs) = (stop-IsQuiet c, All-IsQuiet cs)

module _ {ℓ} {S : Type ℓ} where
  abbrev triggered : Server S → Server S
  triggered s = record s { shutdown_guard = record s.shutdown_guard { triggered = true } }

  Closes : Server S → Stopped S → Type ℓ
  Closes s (stopped u) = u ≡ close (triggered s)
  Closes s stop_waits = Unit
  Closes s stop_threw = Unit

  stop-Closes : (s : Server S) → Closes s (stop s)
  unfolding stop TriggerGuard.trigger Closes
  stop-Closes s =
      if_elim P s.shutdown_guard.triggered _ _ (λ _. tt)
        (λ _. if_elim P (s.shutdown_guard.ref_cnt == 0) _ _ (λ _. refl) (λ _. tt))
    where
      P : Trigger → Type ℓ
      P r = Closes s (elim r [
        | went_off t ↦ stopped (close (record s { shutdown_guard = t }))
        | waits ↦ stop_waits
        | inactive ↦ stop_threw
      ])

  -- A closed server starts nothing, and its handlers return.
  abbrev pub IsClosed : Server S → Type ℓ
  IsClosed u =
      (stop u ≡ stop_threw)
      × All IsQuiet u.workers_pool.lscontexts
      × ((protocol : Protocol S) (fresh : S × Session) (io_stopped : Bool) (item strand : ℕ)
            (error : Bool) (id : ℕ) (others : List ℕ)
          → u.accepting ≡ id ∷ others
          → accept_event protocol fresh io_stopped item strand u error
            ≡ handled (record u { accepting = others }))

  close-IsClosed : (s : Server S) → IsClosed (close (triggered s))
  unfolding close stop ContextPool.stop TriggerGuard.trigger accept_event on_accept leave
      TriggerGuard.acquire_scoped_guard TriggerGuard.destroy
  close-IsClosed s = (
    refl,
    All-IsQuiet s.workers_pool.lscontexts,
    λ protocol fresh io_stopped item strand error id others e. rw (e, accept_event) refl,
  )

  -- Once `stop` has returned, every context of the workers is inactive without a running thread,
  -- a second `stop` throws, and the handler of an accept that was under way starts no session and
  -- accepts nothing more: it returns and changes nothing else.
  pub stop-IsClosed : (s u : Server S) → stop s ≡ stopped u → IsClosed u
  unfolding Closes
  stop-IsClosed s u e = subst IsClosed (sym (subst (Closes s) e (stop-Closes s))) (close-IsClosed s)
