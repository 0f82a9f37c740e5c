-- ===== src/Server/Sessions.antt =====
-- The handlers of the sessions (src/session.hpp) that a server of src/server.hpp has started: a
-- session works on the context of the server that it was set up with, and is put back into the pool
-- of src/session_pool.hpp when it ends.
pub mod Counting
pub mod Cases
pub mod References
pub mod Events
pub mod Starts
pub mod Accepts
pub mod Begin
pub mod Service
pub mod Reach
use lserver.Prelude.{ℕ, Bool, Option, none, some, ◌==◌, if◌then◌else◌, get_elem?, lookup, assign}
use lserver.LsContext.{LsContext}
use lserver.Session.{Session, Protocol, After, after, bad_reception_state, crashed, hung}
use lserver.Session.Events.{Event, deliver}
use lserver.Server.{Server, Object, Handled, handled, failed, set_context, session_release_cb}

module _ {ℓ} {S : Type ℓ} where
  -- The object at `p` with its context once the handler has returned: `finalized_` has been called
  -- if it is counted.
  unfoldable pub settle : Server S → (p : ℕ) → Object S → After S → Handled S
  unfolding set_context session_release_cb
  settle s p o (after x session) = elim session.lscontext [
    | none ↦ failed
    | some c ↦
        let o' : Object S = record { state = x; session = session; context = o.context } in
        let s' = set_context (record s { objects = assign p o' s.objects }) o.context c in
        handled (if session.finalized == o.session.finalized then s' else session_release_cb s' p)
  ]
  settle s p o bad_reception_state = failed
  settle s p o crashed = failed
  settle s p o hung = failed

  -- An event of the session at `p`; `io_stopped` is what its context answers.
  unfoldable pub session_event :
      Protocol S → Server S → (p : ℕ) → Event → (io_stopped : Bool) → Handled S
  unfolding settle deliver
  session_event protocol s p e io_stopped = elim (lookup p s.objects) [
    | none ↦ failed
    | some o ↦ elim (get_elem? s.workers_pool.lscontexts o.context) [
      | none ↦ failed
      | some c ↦ settle s p o (
          deliver protocol (e, io_stopped)
            (after o.state (record o.session { lscontext = some c })))
    ]
  ]
