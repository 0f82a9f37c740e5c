-- ===== src/Server/Accept.antt =====
-- The accepts of the server of src/server.hpp, one after another.
use lserver.Prelude.{
  ℕ, ◌≡◌, refl, ap, ◌∙◌, sym, subst, inl, inr, Bool, none, some, List, [], ◌∷◌, arith, if_elim,
  if◌then◌else◌, get_elem?, Option-cases,
}
use lserver.ContextPool.Holds.{holds_of}
use lserver.LsContext.{LsContext}
use lserver.TriggerGuard
use lserver.Session.{Session, Protocol}
use lserver.SessionPool
use lserver.Server.{Server, Handled, dispatch_again, leave, on_accept, accept_event}
use lserver.Server.Holds.{IsHeld, Accepts, acquire-armed, destroy-triggered, dispatch-Accepts}
use lserver.Server.Rests.{Rests, Starts, serve-Rests}

module _ {ℓ} {S : Type ℓ} (own : List ℕ) where
  held-at :
      (s : Server S) (id : ℕ)
      → IsHeld own s (id ∷ [])
      → (c : LsContext) × (get_elem? s.workers_pool.lscontexts id ≡ some c)
  held-at s id v = elim (Option-cases (get_elem? s.workers_pool.lscontexts id)) [
    | inl missing ↦ absurd (ground (arith, v.holds id, ap holds_of missing))
    | inr found ↦ found
  ]

  module _ (protocol : Protocol S) (fresh : S × Session) (io_stopped : Bool) (item strand : ℕ) where
    leave-Accepts :
        (g : TriggerGuard.ScopedGuard) (r : Handled S)
        → Accepts own r
        → Accepts own (leave protocol fresh io_stopped item strand g r)
    unfolding leave
    leave-Accepts g r (u, id, e, a, v) = (
      record u { shutdown_guard = TriggerGuard.destroy g u.shutdown_guard },
      id,
      ap (leave protocol fresh io_stopped item strand g) e,
      a,
      record {
        few = v.few;
        armed = destroy-triggered g u.shutdown_guard ∙ v.armed;
        valid = v.valid;
        holds = v.holds;
      },
    )

    dispatch_again-Accepts :
        (r : Handled S)
        → Rests own protocol fresh io_stopped item strand r
        → Accepts own (dispatch_again protocol fresh io_stopped item strand r)
    unfolding dispatch_again
    dispatch_again-Accepts r (u, e, a, v) =
        subst (λ t. Accepts own (dispatch_again protocol fresh io_stopped item strand t)) (sym e)
          (dispatch-Accepts own u a v)

    module _ (starts : Starts protocol) where
      on_accept-Accepts :
          (s : Server S) (id : ℕ) (error : Bool)
          → s.accepting ≡ []
          → IsHeld own s (id ∷ [])
          → Accepts own (on_accept protocol fresh io_stopped item strand s id error)
      unfolding on_accept
      on_accept-Accepts s id error none_yet v =
          let (t, g) = TriggerGuard.acquire_scoped_guard s.shutdown_guard in
          let off = acquire-armed s.shutdown_guard v.armed in
          let borrowed = if error then (s.pool, none) else SessionPool.borrow s.pool id item in
          let (c, at) = held-at s id v in
          if_elim (λ (r : Handled S). Accepts own r) t.triggered _ _
            (λ on. absurd (ground (arith, on, off)))
            (λ _. leave-Accepts g _ (
              dispatch_again-Accepts _ (
                serve-Rests own protocol fresh io_stopped item strand starts
                  (record s { shutdown_guard = t }) id c borrowed none_yet
                  (record { few = v.few; armed = off; valid = v.valid; holds = v.holds }) at)))

      -- When one accept is under way in a server that is not stopped, with the holds that
      -- belong to it, and the protocol starts a session by resetting its buffers, the handler
      -- of that accept returns, whether it failed, the pool of sessions is exhausted, or the
      -- session starts or even ends at once: then exactly one accept is under way again, with
      -- the holds that belong to it.
      pub accept_event-Accepts :
          (s : Server S) (id : ℕ) (error : Bool)
          → s.accepting ≡ id ∷ []
          → IsHeld own s (id ∷ [])
          → Accepts own (accept_event protocol fresh io_stopped item strand s error)
      unfolding accept_event
      accept_event-Accepts s id error one v =
          rw (one, accept_event)
            (on_accept-Accepts (record s { accepting = [] }) id error refl
              (record { few = v.few; armed = v.armed; valid = v.valid; holds = v.holds }))
