-- ===== src/Server/Sessions/Cases.antt =====
-- An event of a session of src/server.hpp: there is no such session, or its handler runs.
use lserver.Prelude.{ℕ, ◌≡◌, refl, Bool, Option, none, some, get_elem?, lookup}
use lserver.LsContext.{LsContext}
use lserver.Session.{Protocol, after}
use lserver.Session.Events.{Event, deliver}
use lserver.Server.{Server, Object, Handled, failed}
use lserver.Server.Sessions.{settle, session_event}

module _ {ℓ ℓ'} {S : Type ℓ} (R : Handled S → Type ℓ') (protocol : Protocol S) (s : Server S)
    (p : ℕ) (e : Event) (io_stopped : Bool) (lost : R failed)
    (runs : (o : Object S) (c : LsContext)
      → lookup p s.objects ≡ some o
      → get_elem? s.workers_pool.lscontexts o.context ≡ some c
      → R (
          settle s p o (
            deliver protocol
              (e, io_stopped)
              (after o.state (record o.session { lscontext = some c }))))) where
  pub session_event-cases : R (session_event protocol s p e io_stopped)
  unfolding session_event
  session_event-cases = go (lookup p s.objects) refl
    where
      go :
          (found : Option (Object S))
          → lookup p s.objects ≡ found
          → R (elim found [
            | none ↦ failed
            | some o ↦ elim (get_elem? s.workers_pool.lscontexts o.context) [
              | none ↦ failed
              | some c ↦ settle s p o (
                  deliver protocol
                    (e, io_stopped)
                    (after o.state (record o.session { lscontext = some c })))
            ]
          ])
      go none there = lost
      go (some o) there = on_context (get_elem? s.workers_pool.lscontexts o.context) refl
        where
          on_context :
              (found : Option LsContext)
              → get_elem? s.workers_pool.lscontexts o.context ≡ found
              → R (elim found [
                | none ↦ failed
                | some c ↦ settle s p o (
                    deliver protocol
                      (e, io_stopped)
                      (after o.state (record o.session { lscontext = some c })))
              ])
          on_context none at = lost
          on_context (some c) at = runs o c there at
