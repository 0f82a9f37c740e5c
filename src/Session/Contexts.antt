-- ===== src/Session/Contexts.antt =====
-- What the handlers of a session of src/session.hpp do with its context: they give it back once,
-- when the session ends.
use lserver.Prelude.{
  ℕ, suc, ◌-◌, ◌==◌, ◌≡◌, subst, Bool, true, false, Option, none, some, List, [], ◌++◌,
  if◌then◌else◌, if_elim, add_word, length, drop,
}
use lserver.DynamicQueue
use lserver.DynamicQueue.{DynamicQueue}
use lserver.LsContext.{LsContext}
use lserver.Session.{
  Session, k_finished, k_continue, k_close, k_data, Reply, replied, no_reply, Protocol, After,
  after, bad_reception_state, crashed, hung, release, finalize, run_once, close_once, async_send,
  async_close, async_receive, on_received, receive_event_cb, shut_down, started, send_more,
  on_all_sent, send_event_cb, close_event, afterwards, next_transfer_sz, send, consume,
  set_expected_data_length, reset_buffers,
}
use lserver.Session.Callbacks.{SendsWith, RepliesWith, IsKept, Keeps}
use lserver.Session.Events.{Event, received, sent, posted, handle, is_pending, deliver}

-- What holds of the context of a session, and of whether the session has ended.
module _ (Q : Option LsContext → Bool → Type 0) where
  abbrev pub On : Session → Type 0
  On s = Q s.lscontext s.invoked

  abbrev pub OnAfter {ℓ} : {S : Type ℓ} → After S → Type 0
  OnAfter (after x s) = On s
  OnAfter bad_reception_state = Unit
  OnAfter crashed = Unit
  OnAfter hung = Unit

  async_send-On : (s : Session) → On s → SendsWith On (async_send s)
  unfolding async_send
  async_send-On s v = go (DynamicQueue.front s.outgoing_queue)
    where
      started : Session
      started = record s { writes = suc s.writes }

      go :
          (o : Option ℕ)
          → SendsWith On
              (elim o [ none ↦ none | some qb ↦ if s.socket then some started else none ])
      go none = tt
      go (some qb) = if_elim (SendsWith On) s.socket (some started) none (λ _. v) (λ _. tt)

  pub On-IsKept : IsKept On
  unfolding consume set_expected_data_length reset_buffers send
  On-IsKept = record {
    consume = λ s k v.
        if_elim On (k == 0) (record s { ubuf = [] }) (record s { ubuf = drop k s.ubuf }) (λ _. v)
          (λ _. v);
    set_expected_data_length = λ s k v. v;
    reset_buffers = λ s v. v;
    send = λ s qb v.
        let pushed = record s { outgoing_queue = DynamicQueue.push s.outgoing_queue qb } in
        if_elim (SendsWith On) (DynamicQueue.empty s.outgoing_queue) (async_send pushed)
          (some pushed) (λ _. async_send-On pushed v) (λ _. v);
  }

  -- The end of a session keeps it.
  module _ {ℓ} {S : Type ℓ} (protocol : Protocol S) (stopped : Bool)
      (ends : (o : Option LsContext) (strand : Option ℕ)
        → Q o false
        → Q (release o strand) true) where
    finalize-On :
        (x : S) (s : Session)
        → s.invoked ≡ false
        → On s
        → On (record ((finalize protocol stopped x s).1) { invoked = true })
    unfolding finalize
    finalize-On x s first v = ends s.lscontext s.strand (subst (Q s.lscontext) first v)

    pub close_once-On : (x : S) (s : Session) → On s → On (close_once protocol stopped x s).1
    unfolding close_once run_once
    close_once-On x s v =
        if_elim (λ (r : S × Session). On r.1) (DynamicQueue.empty s.outgoing_queue)
          (run_once protocol stopped x s) (x, record s { prepare_for_shutdown = true })
          (λ _.
            if_elim (λ (r : S × Session). On r.1) s.invoked (x, s)
              (
                (finalize protocol stopped x s).0,
                record ((finalize protocol stopped x s).1) { invoked = true },
              )
              (λ _. v) (λ first. finalize-On x s first v))
          (λ _. v)

    afterwards-On : (r : S × Session) → On r.1 → OnAfter (afterwards r)
    afterwards-On (x, s) v = v

    async_close-On :
        (x : S) (s : Session) → On s → OnAfter (afterwards (async_close protocol stopped x s))
    unfolding async_close
    async_close-On x s v =
        let posted = record s { closes = suc s.closes } in
        afterwards-On (async_close protocol stopped x s) (
          if_elim (λ (r : S × Session). On r.1) stopped (close_once protocol stopped x posted)
            (x, posted) (λ _. close_once-On x posted v) (λ _. v))

    pub async_receive-On :
        (x : S) (s : Session) → On s → OnAfter (async_receive protocol stopped x s)
    unfolding async_receive
    async_receive-On x s v = go (next_transfer_sz s) s.socket
      where
        reading : Session
        reading = record s { reads = suc s.reads }

        asked : S × Session
        asked = if stopped then close_once protocol stopped x reading else (x, reading)

        go :
            (least : Option ℕ) (socket : Bool)
            → OnAfter (elim least [
              | none ↦ bad_reception_state
              | some k ↦ elim socket [ false ↦ crashed | true ↦ afterwards asked ]
            ])
        go none socket = tt
        go (some k) false = tt
        go (some k) true = afterwards-On asked (
            if_elim (λ (r : S × Session). On r.1) stopped (close_once protocol stopped x reading)
              (x, reading) (λ _. close_once-On x reading v) (λ _. v))

    on_received-On : (r : Reply S) → RepliesWith On r → OnAfter (on_received protocol stopped r)
    unfolding on_received
    on_received-On (replied x s k_continue) v = async_receive-On x s v
    on_received-On (replied x s k_close) v = async_close-On x s v
    on_received-On (replied x s k_finished) v = v
    on_received-On (replied x s k_data) v = v
    on_received-On no_reply v = tt

    shut_down-On : (r : After S) → OnAfter r → OnAfter (shut_down protocol stopped r)
    unfolding shut_down
    shut_down-On (after x s) v =
        let cleared = record s { prepare_for_shutdown = false } in
        if_elim (OnAfter) s.prepare_for_shutdown
          (afterwards (async_close protocol stopped x cleared)) (after x s)
          (λ _. async_close-On x cleared v) (λ _. v)
    shut_down-On bad_reception_state v = tt
    shut_down-On crashed v = tt
    shut_down-On hung v = tt

    on_all_sent-On : (r : Reply S) → RepliesWith On r → OnAfter (on_all_sent protocol stopped r)
    unfolding on_all_sent
    on_all_sent-On (replied x s k_continue) v = async_receive-On x s v
    on_all_sent-On (replied x s k_close) v = async_close-On x s v
    on_all_sent-On (replied x s k_data) v = v
    on_all_sent-On (replied x s k_finished) v = tt
    on_all_sent-On no_reply v = tt

    started-On :
        (x : S) (o : Option Session) → SendsWith On o → OnAfter (started protocol stopped x o)
    unfolding started
    started-On x none v = tt
    started-On x (some s) v = v

    module _ (keeps : Keeps On protocol) where
      receive_event_cb-On :
          (x : S) (s : Session) (error : Bool) (bytes : List ℕ)
          → On s
          → OnAfter (receive_event_cb protocol stopped x s error bytes)
      unfolding receive_event_cb
      receive_event_cb-On x s error bytes v =
          let arrived = record s { reads = s.reads - 1; ubuf = s.ubuf ++ bytes } in
          let counted = record arrived {
            bytes_received = add_word s.bytes_received (length bytes);
          } in
          if_elim (OnAfter) error (afterwards (async_close protocol stopped x arrived))
            (on_received protocol stopped (protocol.on_data x counted))
            (λ _. async_close-On x arrived v)
            (λ _. on_received-On (protocol.on_data x counted) (keeps.on_data x counted v))

      send_more-On : (x : S) (s : Session) → On s → OnAfter (send_more protocol stopped x s)
      unfolding send_more
      send_more-On x s v =
          if_elim (OnAfter) (DynamicQueue.empty s.outgoing_queue)
            (shut_down protocol stopped (on_all_sent protocol stopped (protocol.on_sent x s)))
            (started protocol stopped x (async_send s))
            (λ _.
              shut_down-On (on_all_sent protocol stopped (protocol.on_sent x s))
                (on_all_sent-On (protocol.on_sent x s) (keeps.on_sent x s v)))
            (λ _. started-On x (async_send s) (async_send-On s v))

      send_event_cb-On :
          (x : S) (s : Session) (error : Bool) (k : ℕ)
          → On s
          → OnAfter (send_event_cb protocol stopped x s error k)
      unfolding send_event_cb
      send_event_cb-On x s error k v = go error (DynamicQueue.pop s.outgoing_queue)
        where
          sent : Session
          sent = record s { writes = s.writes - 1; bytes_sent = add_word s.bytes_sent k }

          cleared : Session
          cleared = record sent { outgoing_queue = DynamicQueue.clear s.outgoing_queue }

          go :
              (error : Bool) (o : Option DynamicQueue)
              → OnAfter (
                  if error then afterwards (async_close protocol stopped x cleared) else elim o [
                    | none ↦ crashed
                    | some q ↦ send_more protocol stopped x (record sent { outgoing_queue = q })
                  ])
          go true o = async_close-On x cleared v
          go false none = tt
          go false (some q) = send_more-On x (record sent { outgoing_queue = q }) v

      handle-On : (e : Event) (x : S) (s : Session) → On s → OnAfter (handle protocol e stopped x s)
      unfolding close_event
      handle-On (received error bytes) x s v = receive_event_cb-On x s error bytes v
      handle-On (sent error k) x s v = send_event_cb-On x s error k v
      handle-On posted x s v =
          afterwards-On (close_event protocol stopped x s)
            (close_once-On x (record s { closes = s.closes - 1 }) v)

      -- So does an event.
      pub deliver-On :
          (e : Event) (x : S) (s : Session)
          → On s
          → OnAfter (deliver protocol (e, stopped) (after x s))
      unfolding deliver
      deliver-On e x s v =
          if_elim (OnAfter) (is_pending protocol e s) (handle protocol e stopped x s) (after x s)
            (λ _. handle-On e x s v) (λ _. v)
