-- ===== src/Server.antt =====
-- src/server.hpp and the pool of sessions of src/session_pool.hpp: accepting connections, and the
-- end of a server. An `async_accept` that is under way is the index of the context it holds; the
-- session objects are at the addresses that the pool knows.
-- A handler holds a scoped guard, or returns, so no trigger goes off in it and it is one step.
-- `get_context_round_robin` has as many rounds as there are contexts.
pub mod Holds
pub mod Rests
pub mod Accept
pub mod Requests
pub mod Built
pub mod Construct
pub mod Reach
pub mod Stop
pub mod Sessions
use lserver.Prelude.{
  ℕ, Bool, false, Option, none, some, List, [], ◌∷◌, ◌++◌, ◌==◌, if◌then◌else◌, add_word, length,
  get_elem?, set, Map, lookup, assign,
}
use lserver.ContextPool
use lserver.ContextPool.{ContextPool, Chosen}
use lserver.LsContext
use lserver.LsContext.{LsContext}
use lserver.SessionPool
use lserver.SessionPool.{SessionPool}
use lserver.Session
use lserver.Session.{Session, Protocol, After, after, bad_reception_state, crashed, hung}
use lserver.TriggerGuard
use lserver.TriggerGuard.{TriggerGuard, ScopedGuard, went_off, waits, inactive}

-- A session object: the state of its protocol, its session, and the index of its context.
pub record Object {ℓ} (S : Type ℓ) : Type ℓ where
  pub state : S
  pub session : Session
  pub context : ℕ

pub record Server {ℓ} (S : Type ℓ) : Type ℓ where
  pub separate_acceptor_thread : Bool
  pub workers_pool : ContextPool
  pub pool : SessionPool
  pub acceptor_pool : ContextPool
  pub socket : Option ℕ  -- the context that `socket_` is built on
  pub acceptor_open : Bool
  pub accepting : List ℕ
  pub shutdown_guard : TriggerGuard
  pub accepted_cnt : ℕ
  pub objects : Map (Object S)

-- A handler returns, or an exception or a bad pointer ends it.
pub data Handled {ℓ} (S : Type ℓ) : Type ℓ where
  handled : Server S → Handled S
  failed : Handled S

pub data Stopped {ℓ} (S : Type ℓ) : Type ℓ where
  stopped : Server S → Stopped S
  stop_waits : Stopped S  -- in `trigger`
  stop_threw : Stopped S

module _ {ℓ} {S : Type ℓ} where
  -- The rest of `dispatch`, with the context `id`.
  unfoldable pub register : Server S → (id : ℕ) → Server S
  unfolding TriggerGuard.acquire_scoped_guard TriggerGuard.destroy
  register s id =
      let (t, g) = TriggerGuard.acquire_scoped_guard s.shutdown_guard in
      let s' = record s { socket = some id; shutdown_guard = TriggerGuard.destroy g t } in
      if t.triggered then s' else record s' { accepting = s.accepting ++ id ∷ [] }

  unfoldable pub dispatch_to : Server S → Chosen → Handled S
  unfolding register
  dispatch_to s (Chosen.chosen workers_pool id) =
      handled (register (record s { workers_pool = workers_pool }) id)
  dispatch_to s Chosen.out_of_range = failed
  dispatch_to s Chosen.out_of_fuel = failed

  unfoldable pub dispatch : Server S → Handled S
  unfolding dispatch_to ContextPool.get_context_round_robin
  dispatch s =
      dispatch_to s
        (ContextPool.get_context_round_robin (length s.workers_pool.lscontexts) s.workers_pool)

  unfoldable pub set_context : Server S → (id : ℕ) → LsContext → Server S
  set_context s id c = record s {
    workers_pool = record s.workers_pool { lscontexts = set s.workers_pool.lscontexts id c };
  }

  -- The callback that ends a session.
  unfoldable pub session_release_cb : Server S → (item : ℕ) → Server S
  unfolding SessionPool.put_back
  session_release_cb s item = record s { pool = SessionPool.put_back s.pool item }

  -- `fresh` is an object as `new` makes it, `item` its address and `strand` that of a strand,
  -- if one is made; `io_stopped` is what the context answers.
  module _ (protocol : Protocol S) (fresh : S × Session) (io_stopped : Bool) (item strand : ℕ) where
    unfoldable pub object : Server S → ℕ → S × Session
    object s p = elim (lookup p s.objects) [ none ↦ fresh | some o ↦ (o.state, o.session) ]

    -- After `session_start`: the context `c` of the session is the server's, and the session may
    -- have ended.
    unfoldable pub accept : Server S → (id p : ℕ) → S × Session → LsContext → Server S
    unfolding set_context session_release_cb
    accept s id p (x, session) c =
        let o : Object S = record { state = x; session = session; context = id } in
        let s' = set_context (record s { objects = assign p o s.objects }) id c in
        let s'' = if session.finalized == 0 then s' else session_release_cb s' p in
        record s'' { accepted_cnt = add_word s.accepted_cnt 1 }

    unfoldable pub started : Server S → (id p : ℕ) → After S → Handled S
    unfolding accept
    started s id p (after x session) = elim session.lscontext [
      | none ↦ failed
      | some c ↦ handled (accept s id p (x, session) c)
    ]
    started s id p bad_reception_state = failed
    started s id p crashed = failed
    started s id p hung = failed

    unfoldable pub start_session : Server S → (id p : ℕ) → Handled S
    unfolding started object Session.setup Session.session_start
    start_session s id p = elim (get_elem? s.workers_pool.lscontexts id) [
      | none ↦ failed
      | some c ↦
          let (x, session) = object s p in
          started s id p
            (Session.session_start protocol io_stopped x (Session.setup session c strand))
    ]

    unfoldable pub unhold_context : Server S → (id : ℕ) → Handled S
    unfolding set_context LsContext.unhold
    unhold_context s id = elim (get_elem? s.workers_pool.lscontexts id) [
      | none ↦ failed
      | some c ↦ handled (set_context s id (LsContext.unhold c))
    ]

    unfoldable pub serve : Server S → (id : ℕ) → SessionPool × Option ℕ → Handled S
    unfolding start_session unhold_context
    serve s id (pool, none) = unhold_context (record s { pool = pool }) id
    serve s id (pool, some p) = start_session (record s { pool = pool }) id p

    -- `this->dispatch()`, and the end of the guard's scope.
    unfoldable pub dispatch_again : Handled S → Handled S
    unfolding dispatch
    dispatch_again (handled s) = dispatch s
    dispatch_again failed = failed

    unfoldable pub leave : ScopedGuard → Handled S → Handled S
    unfolding TriggerGuard.destroy
    leave g (handled s) =
        handled (record s { shutdown_guard = TriggerGuard.destroy g s.shutdown_guard })
    leave g failed = failed

    -- The handler that `dispatch` gives to `async_accept`.
    unfoldable pub on_accept : Server S → (id : ℕ) → (error : Bool) → Handled S
    unfolding serve leave dispatch_again TriggerGuard.acquire_scoped_guard SessionPool.borrow
    on_accept s id error =
        let (t, g) = TriggerGuard.acquire_scoped_guard s.shutdown_guard in
        let s' = record s { shutdown_guard = t } in
        let borrowed = if error then (s.pool, none) else SessionPool.borrow s.pool id item in
        if t.triggered
        then leave g (handled s')
        else leave g (dispatch_again (serve s' id borrowed))

    -- The oldest accept completes.
    unfoldable pub accept_event : Server S → (error : Bool) → Handled S
    unfolding on_accept
    accept_event s error = elim s.accepting [
      | [] ↦ failed
      | id ∷ others ↦ on_accept (record s { accepting = others }) id error
    ]

  -- `stop`, once the trigger has gone off.
  unfoldable pub close : Server S → Server S
  unfolding ContextPool.stop
  close s = record s {
    socket = none;
    acceptor_open = false;
    acceptor_pool =
        if s.separate_acceptor_thread then ContextPool.stop s.acceptor_pool else s.acceptor_pool;
    workers_pool = ContextPool.stop s.workers_pool;
  }

  unfoldable pub stop : Server S → Stopped S
  unfolding close TriggerGuard.trigger
  stop s = elim (TriggerGuard.trigger s.shutdown_guard) [
    | went_off t ↦ stopped (close (record s { shutdown_guard = t }))
    | waits ↦ stop_waits
    | inactive ↦ stop_threw
  ]

  unfoldable pub wait : Server S → Server S
  unfolding ContextPool.wait
  wait s = record s {
    acceptor_pool =
        if s.separate_acceptor_thread then ContextPool.wait s.acceptor_pool else s.acceptor_pool;
    workers_pool = ContextPool.wait s.workers_pool;
  }
