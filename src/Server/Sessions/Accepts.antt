-- ===== src/Server/Sessions/Accepts.antt =====
-- What an accept leaves of the server of src/server.hpp and its sessions.
use lserver.Prelude.{
  ℕ, ◌≡◌, refl, ap, ◌∙◌, inl, inr, Bool, true, false, Option, none, some, List, [], ◌∷◌, ◌++◌,
  if◌then◌else◌, if_elim, elem, length, get_elem?, lookup,
}
use lserver.ContextPool
use lserver.ContextPool.{Chosen}
use lserver.ContextPool.Counts.{counts_at-set_same, SameChosen, get_context_round_robin-counts}
use lserver.ContextPool.References.{ref_cnt, hold-ref_cnt}
use lserver.LsContext
use lserver.LsContext.{LsContext}
use lserver.Pool.Stack.{Takes, borrow-Takes, untaken}
use lserver.SessionPool
use lserver.SessionPool.{SessionPool}
use lserver.TriggerGuard
use lserver.TriggerGuard.{ScopedGuard}
use lserver.Session.{Session, Protocol}
use lserver.Session.Callbacks.{Keeps}
use lserver.Session.Writes.{IsLawful}
use lserver.Session.References.{Attached}
use lserver.Server.{
  Server, Handled, handled, failed, set_context, unhold_context, serve, register, dispatch_to,
  dispatch, dispatch_again, leave, on_accept, accept_event,
}
use lserver.Server.Sessions.Counting.{is_live}
use lserver.Server.Sessions.References.{IsTied, same-IsTied}
use lserver.Server.Sessions.Events.{TiedAfter}
use lserver.Server.Sessions.Starts.{start_session-IsTied}

module _ {ℓ} {S : Type ℓ} where
  dispatch_to-IsTied :
      (s : Server S) (r : Chosen)
      → SameChosen ref_cnt s.workers_pool r
      → IsTied s
      → TiedAfter (dispatch_to s r)
  unfolding dispatch_to register
  dispatch_to-IsTied s (Chosen.chosen q id) same v =
      let (t, g) = TriggerGuard.acquire_scoped_guard s.shutdown_guard in
      let u = record s {
        workers_pool = q;
        socket = some id;
        shutdown_guard = TriggerGuard.destroy g t;
      } in
      if_elim IsTied t.triggered u (record u { accepting = s.accepting ++ id ∷ [] })
        (λ _. same-IsTied s u refl refl same v)
        (λ _. same-IsTied s (record u { accepting = s.accepting ++ id ∷ [] }) refl refl same v)
  dispatch_to-IsTied s Chosen.out_of_range same v = tt
  dispatch_to-IsTied s Chosen.out_of_fuel same v = tt

  pub dispatch-IsTied : (s : Server S) → IsTied s → TiedAfter (dispatch s)
  unfolding dispatch
  dispatch-IsTied s v =
      dispatch_to-IsTied s
        (ContextPool.get_context_round_robin (length s.workers_pool.lscontexts) s.workers_pool)
        (get_context_round_robin-counts ref_cnt hold-ref_cnt (length s.workers_pool.lscontexts)
          s.workers_pool)
        v

  module _ (protocol : Protocol S) (fresh : S × Session) (io_stopped : Bool) (item strand : ℕ)
      (lawful : IsLawful protocol)
      (keeps : (n : ℕ) (before : Bool) → Keeps (Attached n before) protocol)
      (empty : fresh.1.outgoing_queue.q ≡ []) (idle : fresh.1.writes ≡ 0) where
    taken-IsTied :
        (s : Server S) (pool : SessionPool) (o : Option ℕ)
        → Takes s.pool.base.pool s.pool.base item (pool.base, o)
        → IsTied s
        → IsTied (record s { pool = pool })
    taken-IsTied s pool o t v = record {
      distinct = t.distinct;
      idle = t.idle ∙ v.idle;
      ended = λ p h. v.ended p (t.rest p h);
      refs = v.refs;
      valid = v.valid;
    }

    unhold_context-IsTied :
        (s : Server S) (id : ℕ)
        → IsTied s
        → TiedAfter (unhold_context protocol fresh io_stopped item strand s id)
    unfolding unhold_context LsContext.unhold set_context
    unhold_context-IsTied s id v = go (get_elem? s.workers_pool.lscontexts id) refl
      where
        go :
            (found : Option LsContext)
            → get_elem? s.workers_pool.lscontexts id ≡ found
            → TiedAfter (elim found [
              | none ↦ failed
              | some c ↦ handled (set_context s id (LsContext.unhold c))
            ])
        go none at = tt
        go (some c) at =
            same-IsTied s (set_context s id (LsContext.unhold c)) refl refl
              (counts_at-set_same ref_cnt s.workers_pool.lscontexts id c (LsContext.unhold c) at
                refl)
              v

    serve-IsTied :
        (s : Server S) (id : ℕ)
        → ((x : ℕ) → elem x s.pool.base.pool ≡ true → is_live (lookup x s.objects) ≡ false)
        → is_live (lookup item s.objects) ≡ false
        → (borrowed : SessionPool × Option ℕ)
        → Takes s.pool.base.pool s.pool.base item (borrowed.0.base, borrowed.1)
        → IsTied s
        → TiedAfter (serve protocol fresh io_stopped item strand s id borrowed)
    unfolding serve
    serve-IsTied s id ended unused (pool, none) t v =
        unhold_context-IsTied (record s { pool = pool }) id (taken-IsTied s pool none t v)
    serve-IsTied s id ended unused (pool, some p) t v =
        let (away, from) = t.taken p refl in
        start_session-IsTied protocol fresh io_stopped item strand lawful keeps empty idle
          (record s { pool = pool }) id p (taken-IsTied s pool (some p) t v) away
          (elim from [
            | inl e ↦ ap (λ n. is_live (lookup n s.objects)) e ∙ unused
            | inr h ↦ ended p h
          ])

    dispatch_again-IsTied :
        (r : Handled S)
        → TiedAfter r
        → TiedAfter (dispatch_again protocol fresh io_stopped item strand r)
    unfolding dispatch_again
    dispatch_again-IsTied (handled s) v = dispatch-IsTied s v
    dispatch_again-IsTied failed v = tt

    leave-IsTied :
        (g : ScopedGuard) (r : Handled S)
        → TiedAfter r
        → TiedAfter (leave protocol fresh io_stopped item strand g r)
    unfolding leave
    leave-IsTied g (handled s) v =
        same-IsTied s (record s { shutdown_guard = TriggerGuard.destroy g s.shutdown_guard }) refl
          refl (λ i. refl) v
    leave-IsTied g failed v = tt

    on_accept-IsTied :
        (s : Server S) (id : ℕ) (error : Bool)
        → is_live (lookup item s.objects) ≡ false
        → IsTied s
        → TiedAfter (on_accept protocol fresh io_stopped item strand s id error)
    unfolding on_accept SessionPool.borrow
    on_accept-IsTied s id error unused v =
        let (t, g) = TriggerGuard.acquire_scoped_guard s.shutdown_guard in
        let s' = record s { shutdown_guard = t } in
        let v' = same-IsTied s s' refl refl (λ i. refl) v in
        let borrowed = if error then (s.pool, none) else SessionPool.borrow s.pool id item in
        if_elim TiedAfter t.triggered (leave protocol fresh io_stopped item strand g (handled s'))
          (leave protocol fresh io_stopped item strand g (
            dispatch_again protocol fresh io_stopped item strand
              (serve protocol fresh io_stopped item strand s' id borrowed)))
          (λ _. leave-IsTied g (handled s') v')
          (λ _. leave-IsTied g _ (
            dispatch_again-IsTied _ (
              serve-IsTied s' id v.ended unused borrowed
                (if_elim
                  (λ (b : SessionPool × Option ℕ).
                    Takes s.pool.base.pool s.pool.base item (b.0.base, b.1))
                  error (s.pool, none) (SessionPool.borrow s.pool id item)
                  (λ _. untaken s.pool.base item v.distinct)
                  (λ _. borrow-Takes s.pool.base id item v.distinct))
                v')))

    -- The address of a new object is that of no session that is live.
    pub accept_event-IsTied :
        (s : Server S) (error : Bool)
        → is_live (lookup item s.objects) ≡ false
        → IsTied s
        → TiedAfter (accept_event protocol fresh io_stopped item strand s error)
    unfolding accept_event
    accept_event-IsTied s error unused v = go s.accepting
      where
        go :
            (accepting : List ℕ)
            → TiedAfter (elim accepting [
              | [] ↦ failed
              | id ∷ others ↦
                  on_accept protocol fresh io_stopped item strand
                    (record s { accepting = others })
                    id
                    error
            ])
        go [] = tt
        go (id ∷ others) =
            on_accept-IsTied (record s { accepting = others }) id error unused
              (same-IsTied s (record s { accepting = others }) refl refl (λ i. refl) v)
