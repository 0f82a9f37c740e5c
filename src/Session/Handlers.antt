-- ===== src/Session/Handlers.antt =====
-- What each handler of a session of src/session.hpp leaves.
use lserver.Prelude.{
  ℕ, ◌-◌, ◌<◌, ◌≡◌, refl, Bool, false, not, Option, none, some, List, [], ◌∷◌, ◌++◌, arith,
  if◌then◌else◌, if_elim, subst, sym, add_word, length,
}
use lserver.DynamicQueue
use lserver.DynamicQueue.{DynamicQueue}
use lserver.LsContext.{LsContext}
use lserver.Session.{
  Session, k_finished, k_continue, k_close, k_data, Reply, replied, no_reply, Protocol, After,
  after, bad_reception_state, crashed, hung, setup, async_send, async_close, async_receive,
  session_start, unhold, on_received, receive_event_cb, shut_down, started, send_more, on_all_sent,
  send_event_cb, close_event, afterwards,
}
use lserver.Session.Writes.{
  IsValid, Sends, async_send-Sends, IsFine, IsLawful, Replies, async_close-IsFine,
  async_receive-IsFine, afterwards-IsFine, close_once-IsValid,
}

pub setup-IsValid :
    (s : Session) (c : LsContext) (item : ℕ)
    → s.outgoing_queue.q ≡ []
    → s.writes ≡ 0
    → IsValid (setup s c item)
unfolding setup
setup-IsValid s c item empty idle = record {
  single = ground (arith, empty, idle);
  once = refl;
  open_socket = refl;
  drained = λ i. empty;
}

module _ {ℓ} {S : Type ℓ} (protocol : Protocol S) (lawful : IsLawful protocol)
    (stopped : Bool) where
  on_received-IsFine : (r : Reply S) → Replies r → IsFine (on_received protocol stopped r)
  unfolding on_received
  on_received-IsFine (replied x s k_continue) v = async_receive-IsFine protocol stopped x s v
  on_received-IsFine (replied x s k_close) v = async_close-IsFine protocol stopped x s v
  on_received-IsFine (replied x s k_finished) v = v
  on_received-IsFine (replied x s k_data) v = v
  on_received-IsFine no_reply v = tt

  pub receive_event_cb-IsFine :
      (x : S) (s : Session) (error : Bool) (bytes : List ℕ)
      → IsValid s
      → IsFine (receive_event_cb protocol stopped x s error bytes)
  unfolding receive_event_cb
  receive_event_cb-IsFine x s error bytes v =
      let arrived = record s { reads = s.reads - 1; ubuf = s.ubuf ++ bytes } in
      let counted = record arrived { bytes_received = add_word s.bytes_received (length bytes) } in
      if_elim IsFine error (afterwards (async_close protocol stopped x arrived))
        (on_received protocol stopped (protocol.on_data x counted))
        (λ _. async_close-IsFine protocol stopped x arrived (record {
          single = v.single;
          once = v.once;
          open_socket = v.open_socket;
          drained = v.drained;
        }))
        (λ _. on_received-IsFine (protocol.on_data x counted) (
          lawful.on_data x counted (record {
            single = v.single;
            once = v.once;
            open_socket = v.open_socket;
            drained = v.drained;
          })))

  shut_down-IsFine : (r : After S) → IsFine r → IsFine (shut_down protocol stopped r)
  unfolding shut_down
  shut_down-IsFine (after x s) v =
      let cleared = record s { prepare_for_shutdown = false } in
      if_elim IsFine s.prepare_for_shutdown (afterwards (async_close protocol stopped x cleared))
        (after x s)
        (λ _. async_close-IsFine protocol stopped x cleared (record {
          single = v.single;
          once = v.once;
          open_socket = v.open_socket;
          drained = v.drained;
        }))
        (λ _. v)
  shut_down-IsFine bad_reception_state v = tt
  shut_down-IsFine crashed v = tt
  shut_down-IsFine hung v = tt

  on_all_sent-IsFine : (r : Reply S) → Replies r → IsFine (on_all_sent protocol stopped r)
  unfolding on_all_sent
  on_all_sent-IsFine (replied x s k_continue) v = async_receive-IsFine protocol stopped x s v
  on_all_sent-IsFine (replied x s k_close) v = async_close-IsFine protocol stopped x s v
  on_all_sent-IsFine (replied x s k_data) v = v
  on_all_sent-IsFine (replied x s k_finished) v = tt
  on_all_sent-IsFine no_reply v = tt

  started-IsFine : (x : S) (o : Option Session) → Sends o → IsFine (started protocol stopped x o)
  unfolding started
  started-IsFine x none v = tt
  started-IsFine x (some s) v = v

  -- Between the buffer that was sent and the next one no write is in flight.
  record IsBetween (s : Session) : Type 0 where
    idle : s.writes ≡ 0
    once : s.finalized ≡ (if s.invoked then 1 else 0)
    open_socket : s.socket ≡ not s.invoked
    alive : s.invoked ≡ false

  send_more-IsFine : (x : S) (s : Session) → IsBetween s → IsFine (send_more protocol stopped x s)
  unfolding send_more
  send_more-IsFine x s b = go s.outgoing_queue.q refl
    where
      last : s.outgoing_queue.q ≡ [] → IsValid s
      last e = record {
        single = ground (arith, b.idle, e);
        once = b.once;
        open_socket = b.open_socket;
        drained = λ i. e;
      }

      all_sent :
          s.outgoing_queue.q ≡ []
          → send_more protocol stopped x s
            ≡ shut_down protocol stopped (on_all_sent protocol stopped (protocol.on_sent x s))
      all_sent e = ground (arith, e)

      more :
          (y : ℕ) (ys : List ℕ)
          → s.outgoing_queue.q ≡ y ∷ ys
          → send_more protocol stopped x s ≡ started protocol stopped x (async_send s)
      more y ys e = ground (arith, e)

      go : (q : List ℕ) → s.outgoing_queue.q ≡ q → IsFine (send_more protocol stopped x s)
      go [] e = subst (IsFine) (sym (all_sent e)) (
          shut_down-IsFine (on_all_sent protocol stopped (protocol.on_sent x s))
            (on_all_sent-IsFine (protocol.on_sent x s) (lawful.on_sent x s (last e))))
      go (y ∷ ys) e =
          subst (IsFine) (sym (more y ys e)) (
            started-IsFine x (async_send s) (async_send-Sends s y ys e b.idle b.once b.open_socket))

  pub send_event_cb-IsFine :
      (x : S) (s : Session) (error : Bool) (n : ℕ)
      → IsValid s
      → 0 < s.writes
      → IsFine (send_event_cb protocol stopped x s error n)
  unfolding send_event_cb
  send_event_cb-IsFine x s error n v h = go s.outgoing_queue.q refl
    where
      sent : Session
      sent = record s { writes = s.writes - 1; bytes_sent = add_word s.bytes_sent n }

      cleared : Session
      cleared = record sent { outgoing_queue = DynamicQueue.clear s.outgoing_queue }

      cleared-IsValid : IsValid cleared
      cleared-IsValid = record {
        single = ground (arith, v.single);
        once = v.once;
        open_socket = v.open_socket;
        drained = λ i. refl;
      }

      popped : List ℕ → Session
      popped ys = record sent { outgoing_queue = record { q = ys } }

      result :
          (y : ℕ) (ys : List ℕ)
          → s.outgoing_queue.q ≡ y ∷ ys
          → send_event_cb protocol stopped x s error n ≡ (
              if error
              then afterwards (async_close protocol stopped x cleared)
              else send_more protocol stopped x (popped ys))
      result y ys e = ground (arith, e)

      go :
          (q : List ℕ)
          → s.outgoing_queue.q ≡ q
          → IsFine (send_event_cb protocol stopped x s error n)
      go [] e = absurd (ground (arith, v.single, e))
      go (y ∷ ys) e = subst (IsFine) (sym (result y ys e)) (
          if_elim IsFine error (afterwards (async_close protocol stopped x cleared))
            (send_more protocol stopped x (popped ys))
            (λ _. async_close-IsFine protocol stopped x cleared cleared-IsValid)
            (λ _. send_more-IsFine x (popped ys) (record {
              idle = ground (arith, v.single, e);
              once = v.once;
              open_socket = v.open_socket;
              alive = ground (arith, v.drained, e);
            })))

  unhold-IsFine : (r : After S) → IsFine r → IsFine (unhold protocol stopped r)
  unfolding unhold
  unhold-IsFine (after x s) v = record {
    single = v.single;
    once = v.once;
    open_socket = v.open_socket;
    drained = v.drained;
  }
  unhold-IsFine bad_reception_state v = tt
  unhold-IsFine crashed v = tt
  unhold-IsFine hung v = tt

  pub session_start-IsFine :
      (x : S) (s : Session) → IsValid s → IsFine (session_start protocol stopped x s)
  unfolding session_start
  session_start-IsFine x s v =
      let (x', s') = protocol.start x s in
      unhold-IsFine (async_receive protocol stopped x' s')
        (async_receive-IsFine protocol stopped x' s' (lawful.start x s v))

  pub close_event-IsFine :
      (x : S) (s : Session) → IsValid s → IsFine (afterwards (close_event protocol stopped x s))
  unfolding close_event
  close_event-IsFine x s v = afterwards-IsFine protocol stopped (close_event protocol stopped x s) (
      close_once-IsValid protocol stopped x (record s { closes = s.closes - 1 })
        (record {
          single = v.single;
          once = v.once;
          open_socket = v.open_socket;
          drained = v.drained;
        }))
