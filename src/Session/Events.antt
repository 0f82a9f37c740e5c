-- ===== src/Session/Events.antt =====
-- Every sequence of events of a session of src/session.hpp.
use lserver.Prelude.{ℕ, ◌≡◌, Bool, true, List, [], ◌∷◌, arith, ltb, if◌then◌else◌, if_elim}
use lserver.LsContext.{LsContext}
use lserver.Session.{
  Session, Protocol, After, after, bad_reception_state, crashed, hung, setup, session_start,
  receive_event_cb, send_event_cb, close_event, afterwards,
}
use lserver.Session.Handlers.{
  setup-IsValid, receive_event_cb-IsFine, send_event_cb-IsFine, session_start-IsFine,
  close_event-IsFine,
}
use lserver.Session.Writes.{IsValid, IsFine, IsLawful}

-- What asio may report of a session: the end of a read or a write, or a handler that was posted.
pub data Event : Type 0 where
  received : (error : Bool) (bytes : List ℕ) → Event
  sent : (error : Bool) (bytes_transferred : ℕ) → Event
  posted : Event

module _ {ℓ} {S : Type ℓ} (protocol : Protocol S) where
  -- The handler of an event; `stopped` is what the context answers in it.
  abbrev pub handle : Event → (stopped : Bool) → S → Session → After S
  handle (received error bytes) stopped x s = receive_event_cb protocol stopped x s error bytes
  handle (sent error n) stopped x s = send_event_cb protocol stopped x s error n
  handle posted stopped x s = afterwards (close_event protocol stopped x s)

  -- Only what has been asked for is reported.
  abbrev pub is_pending : Event → Session → Bool
  is_pending (received error bytes) s = ltb 0 s.reads
  is_pending (sent error n) s = ltb 0 s.writes
  is_pending posted s = ltb 0 s.closes

  unfoldable pub deliver : Event × Bool → After S → After S
  deliver (e, stopped) (after x s) = if is_pending e s then handle e stopped x s else after x s
  deliver e bad_reception_state = bad_reception_state
  deliver e crashed = crashed
  deliver e hung = hung

  unfoldable pub run : List (Event × Bool) → After S → After S
  unfolding deliver
  run [] r = r
  run (e ∷ es) r = run es (deliver e r)

  module _ (lawful : IsLawful protocol) where
    handle-IsFine :
        (e : Event) (stopped : Bool) (x : S) (s : Session)
        → IsValid s
        → is_pending e s ≡ true
        → IsFine (handle e stopped x s)
    handle-IsFine (received error bytes) stopped x s v h =
        receive_event_cb-IsFine protocol lawful stopped x s error bytes v
    handle-IsFine (sent error n) stopped x s v h =
        send_event_cb-IsFine protocol lawful stopped x s error n v (ground arith)
    handle-IsFine posted stopped x s v h = close_event-IsFine protocol lawful stopped x s v

    pub deliver-IsFine : (e : Event × Bool) (r : After S) → IsFine r → IsFine (deliver e r)
    unfolding deliver
    deliver-IsFine (e, stopped) (after x s) v =
        if_elim IsFine (is_pending e s) (handle e stopped x s) (after x s)
          (λ h. handle-IsFine e stopped x s v h) (λ _. v)
    deliver-IsFine e bad_reception_state v = tt
    deliver-IsFine e crashed v = tt
    deliver-IsFine e hung v = tt

    run-IsFine_after : (es : List (Event × Bool)) (r : After S) → IsFine r → IsFine (run es r)
    unfolding run
    run-IsFine_after [] r v = v
    run-IsFine_after (e ∷ es) r v = run-IsFine_after es (deliver e r) (deliver-IsFine e r v)

    -- When a session with an empty queue and no write in flight is set up and started over a
    -- protocol that keeps sessions valid, then after any sequence of the reads, writes and
    -- closes that it has asked for, as far as the handlers return, it is valid: one write is in
    -- flight if there is something to send and none otherwise, and it has ended at most once,
    -- with its socket gone and nothing left to send.
    pub run-IsFine :
        (es : List (Event × Bool)) (stopped : Bool) (x : S) (s : Session) (c : LsContext) (item : ℕ)
        → s.outgoing_queue.q ≡ []
        → s.writes ≡ 0
        → IsFine (run es (session_start protocol stopped x (setup s c item)))
    run-IsFine es stopped x s c item empty idle =
        run-IsFine_after es (session_start protocol stopped x (setup s c item)) (
          session_start-IsFine protocol lawful stopped x (setup s c item)
            (setup-IsValid s c item empty idle))
