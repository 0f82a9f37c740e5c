-- ===== src/Session/Deferred.antt =====
-- A shutdown of a session of src/session.hpp that waits for the last write.
use lserver.Prelude.{
  ℕ, suc, ◌+◌, ◌-◌, ◌<◌, ◌≡◌, refl, ◌⊎◌, inl, inr, true, false, [], ◌∷◌, arith, add_word,
}
use lserver.Session.{
  Session, Feedback, k_finished, k_continue, k_close, k_data, Protocol, replied, after,
  send_event_cb, send_more, shut_down, on_all_sent, async_close, close_event,
}
use lserver.Session.Shutdown.{close_event-ends}

module _ {ℓ} {S : Type ℓ} (protocol : Protocol S) where
  -- The session when its last buffer has been sent.
  abbrev pub all_sent : Session → ℕ → Session
  all_sent s n = record s {
    writes = s.writes - 1;
    bytes_sent = add_word s.bytes_sent n;
    outgoing_queue = record { q = [] };
  }

  -- When the last buffer of a session has been written without error, and the protocol then asks
  -- for a close or for nothing more and leaves nothing to send in a session that has not ended
  -- but is to shut down, `send_event_cb` returns with the request taken back and a close posted,
  -- if the context runs; and the handler of that close ends the session.
  pub send_event_cb-shuts_down :
      (x x' : S) (s t : Session) (n qb : ℕ) (feedback : Feedback)
      → s.outgoing_queue.q ≡ qb ∷ []
      → protocol.on_sent x (all_sent s n) ≡ replied x' t feedback
      → (feedback ≡ k_close) ⊎ (feedback ≡ k_data)
      → t.prepare_for_shutdown ≡ true
      → t.outgoing_queue.q ≡ []
      → t.invoked ≡ false
      → (u : Session) × (send_event_cb protocol false x s false n ≡ after x' u)
        × (u.prepare_for_shutdown ≡ false)
        × (0 < u.closes)
        × ((close_event protocol false x' u).1.socket ≡ false)
        × ((close_event protocol false x' u).1.finalized ≡ t.finalized + 1)
  unfolding send_event_cb send_more on_all_sent shut_down async_close
  send_event_cb-shuts_down x x' s t n qb k_close last reply f deferred empty alive =
      let u = record t { closes = suc (suc t.closes); prepare_for_shutdown = false } in
      let e = close_event-ends protocol false x' u empty alive in
      (u, ground (arith, reply), refl, omega arith, e.0, e.1)
  send_event_cb-shuts_down x x' s t n qb k_data last reply f deferred empty alive =
      let u = record t { closes = suc t.closes; prepare_for_shutdown = false } in
      let e = close_event-ends protocol false x' u empty alive in
      (u, ground (arith, reply), refl, omega arith, e.0, e.1)
  send_event_cb-shuts_down x x' s t n qb k_finished last reply f deferred empty alive =
      absurd (elim f [ inl e ↦ cc e | inr e ↦ cc e ])
  send_event_cb-shuts_down x x' s t n qb k_continue last reply f deferred empty alive =
      absurd (elim f [ inl e ↦ cc e | inr e ↦ cc e ])
