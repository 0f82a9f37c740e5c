-- ===== src/Server/Rests.antt =====
-- An accept of the server of src/server.hpp that has failed or has started a session: the context
-- is no longer held for it.
use lserver.Prelude.{
  ℕ, ◌≡◌, refl, ap, ◌∙◌, Bool, Option, none, some, List, [], ◌∷◌, if_elim, ◌==◌, get_elem?,
  sub_word, add_word,
}
use lserver.LsContext
use lserver.LsContext.{LsContext}
use lserver.Session
use lserver.Session.{Session, Protocol, After, after}
use lserver.Session.Start.{Leaves, session_start-Leaves}
use lserver.SessionPool.{SessionPool}
use lserver.Server.{
  Server, Handled, handled, failed, set_context, session_release_cb, object, accept, started,
  start_session, unhold_context, serve,
}
use lserver.Server.Holds.{IsHeld, set_context-IsHeld}

-- `start` of the protocol does nothing to its session but reset its buffers.
abbrev pub Starts {ℓ} : {S : Type ℓ} → Protocol S → Type ℓ
Starts {S} protocol = (x : S) (s : Session) → (protocol.start x s).1 ≡ Session.reset_buffers s

-- Another count of the holds on one context.
module _ {ℓ} {S : Type ℓ} (own : List ℕ) where
  module _ (protocol : Protocol S) (fresh : S × Session) (io_stopped : Bool) (item strand : ℕ) where
    -- The call has returned, without a hold for an accept.
    abbrev pub Rests : Handled S → Type ℓ
    Rests r = (u : Server S) × (r ≡ handled u) × (u.accepting ≡ []) × IsHeld own u []

    accept-IsHeld :
        (s : Server S) (id p : ℕ) (x : S) (session : Session) (c d : LsContext)
        → s.accepting ≡ []
        → IsHeld own s (id ∷ [])
        → get_elem? s.workers_pool.lscontexts id ≡ some c
        → d.hold_cnt ≡ sub_word c.hold_cnt 1
        → d.active ≡ c.active
        → let u = accept protocol fresh io_stopped item strand s id p (x, session) d in
          (u.accepting ≡ []) × IsHeld own u []
    unfolding accept session_release_cb set_context
    accept-IsHeld s id p x session c d none_yet v at less same =
        let w = set_context-IsHeld own s id c d v at less same in
        if_elim
          (λ (t : Server S).
            let u = record t { accepted_cnt = add_word s.accepted_cnt 1 } in
            (u.accepting ≡ []) × IsHeld own u [])
          (session.finalized == 0) _ _
          (λ _.
            (none_yet, record { few = v.few; armed = v.armed; valid = w.valid; holds = w.holds }))
          (λ _.
            (none_yet, record { few = v.few; armed = v.armed; valid = w.valid; holds = w.holds }))

    started-Rests :
        (s : Server S) (id p : ℕ) (c : LsContext) (r : After S)
        → s.accepting ≡ []
        → IsHeld own s (id ∷ [])
        → get_elem? s.workers_pool.lscontexts id ≡ some c
        → Leaves protocol io_stopped c r
        → Rests (started protocol fresh io_stopped item strand s id p r)
    unfolding started
    started-Rests s id p c r none_yet v at (x, session, d, e, on, less, same) =
        let (idle, w) = accept-IsHeld s id p x session c d none_yet v at less same in
        (
          accept protocol fresh io_stopped item strand s id p (x, session) d,
          ap (started protocol fresh io_stopped item strand s id p) e
              ∙ ap
                  (λ o. elim o [
                    | none ↦ failed
                    | some c' ↦
                        handled
                          (accept protocol fresh io_stopped item strand s id p (x, session) c')
                  ])
                  on,
          idle,
          w,
        )

    module _ (starts : Starts protocol) where
      start_session-Rests :
          (s : Server S) (id p : ℕ) (c : LsContext)
          → s.accepting ≡ []
          → IsHeld own s (id ∷ [])
          → get_elem? s.workers_pool.lscontexts id ≡ some c
          → Rests (start_session protocol fresh io_stopped item strand s id p)
      unfolding start_session
      start_session-Rests s id p c none_yet v at =
          let (x, session) = object protocol fresh io_stopped item strand s p in
          rw (at, start_session)
            (started-Rests s id p c _ none_yet v at (
              session_start-Leaves protocol io_stopped x session c strand
                (starts x (Session.setup session c strand))))

      unhold_context-Rests :
          (s : Server S) (id : ℕ) (c : LsContext)
          → s.accepting ≡ []
          → IsHeld own s (id ∷ [])
          → get_elem? s.workers_pool.lscontexts id ≡ some c
          → Rests (unhold_context protocol fresh io_stopped item strand s id)
      unfolding unhold_context LsContext.unhold
      unhold_context-Rests s id c none_yet v at =
          rw (at, unhold_context)
            (
              _,
              refl,
              unfold set_context in none_yet,
              set_context-IsHeld own s id c (LsContext.unhold c) v at refl refl,
            )

      pub serve-Rests :
          (s : Server S) (id : ℕ) (c : LsContext) (borrowed : SessionPool × Option ℕ)
          → s.accepting ≡ []
          → IsHeld own s (id ∷ [])
          → get_elem? s.workers_pool.lscontexts id ≡ some c
          → Rests (serve protocol fresh io_stopped item strand s id borrowed)
      unfolding serve
      serve-Rests s id c (pool, none) none_yet v at =
          unhold_context-Rests (record s { pool = pool }) id c none_yet
            (record { few = v.few; armed = v.armed; valid = v.valid; holds = v.holds }) at
      serve-Rests s id c (pool, some p) none_yet v at =
          start_session-Rests (record s { pool = pool }) id p c none_yet
            (record { few = v.few; armed = v.armed; valid = v.valid; holds = v.holds }) at
