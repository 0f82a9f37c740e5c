-- ===== src/Session/Safe.antt =====
-- When the handlers of a session of src/session.hpp use its socket, it has one.
use lserver.Prelude.{
  ℕ, suc, ◌-◌, ◌≡◌, refl, sym, subst, Bool, true, false, Option, none, some, List, [], ◌∷◌, ◌++◌,
  arith, if◌then◌else◌, if_elim, add_word, length,
}
use lserver.DynamicQueue
use lserver.LsContext.{LsContext}
use lserver.Session.{
  Session, k_finished, k_continue, k_close, k_data, Reply, replied, no_reply, Protocol, After,
  after, bad_reception_state, crashed, hung, setup, async_send, async_close, async_receive,
  close_once, session_start, unhold, on_received, receive_event_cb, shut_down, started, send_more,
  on_all_sent, send_event_cb, close_event, afterwards, next_transfer_sz,
}
use lserver.Session.Callbacks.{RepliesWith, Keeps}
use lserver.Session.Writes.{IsValid, IsFine, IsLawful}
use lserver.Session.Handlers.{setup-IsValid, session_start-IsFine}
use lserver.Session.Events.{
  Event, received, sent, posted, handle, is_pending, deliver, run, deliver-IsFine,
}

-- No bad pointer has been used.
abbrev pub IsSafe {ℓ} : {S : Type ℓ} → After S → Type 0
IsSafe (after x s) = Unit {0}
IsSafe bad_reception_state = Unit
IsSafe crashed = ⊥
IsSafe hung = Unit

abbrev pub HasSocket : Bool → Session → Type 0
HasSocket there s = s.socket ≡ there

-- What is said to be unreachable in `send_event_cb`.
abbrev pub GoesOn {ℓ} : {S : Type ℓ} → Reply S → Type 0
GoesOn (replied x s k_finished) = ⊥
GoesOn (replied x s k_continue) = Unit
GoesOn (replied x s k_close) = Unit
GoesOn (replied x s k_data) = Unit
GoesOn no_reply = Unit

-- The callbacks leave the socket alone, and `on_sent` does not answer `kFinished`.
pub record IsSteady {ℓ} {S : Type ℓ} (protocol : Protocol S) : Type ℓ where
  pub keeps : (there : Bool) → Keeps (HasSocket there) protocol
  pub goes_on : (x : S) (s : Session) → GoesOn (protocol.on_sent x s)

module _ {ℓ} {S : Type ℓ} (protocol : Protocol S) (stopped : Bool) where
  afterwards-IsSafe : (r : S × Session) → IsSafe (afterwards r)
  afterwards-IsSafe (x, s) = tt

  async_receive-IsSafe :
      (x : S) (s : Session) → s.socket ≡ true → IsSafe (async_receive protocol stopped x s)
  unfolding async_receive
  async_receive-IsSafe x s on = go (next_transfer_sz s) s.socket on
    where
      reading : Session
      reading = record s { reads = suc s.reads }

      asked : S × Session
      asked = if stopped then close_once protocol stopped x reading else (x, reading)

      go :
          (least : Option ℕ) (socket : Bool)
          → socket ≡ true
          → IsSafe (elim least [
            | none ↦ bad_reception_state
            | some n ↦ elim socket [ false ↦ crashed | true ↦ afterwards asked ]
          ])
      go none socket e = tt
      go (some n) false e = cc e
      go (some n) true e = afterwards-IsSafe asked

  on_received-IsSafe :
      (r : Reply S) → RepliesWith (HasSocket true) r → IsSafe (on_received protocol stopped r)
  unfolding on_received
  on_received-IsSafe (replied x s k_continue) on = async_receive-IsSafe x s on
  on_received-IsSafe (replied x s k_close) on = afterwards-IsSafe (async_close protocol stopped x s)
  on_received-IsSafe (replied x s k_finished) on = tt
  on_received-IsSafe (replied x s k_data) on = tt
  on_received-IsSafe no_reply on = tt

  shut_down-IsSafe : (r : After S) → IsSafe r → IsSafe (shut_down protocol stopped r)
  unfolding shut_down
  shut_down-IsSafe (after x s) v =
      let cleared = record s { prepare_for_shutdown = false } in
      if_elim IsSafe s.prepare_for_shutdown (afterwards (async_close protocol stopped x cleared))
        (after x s) (λ _. afterwards-IsSafe (async_close protocol stopped x cleared)) (λ _. tt)
  shut_down-IsSafe bad_reception_state v = tt
  shut_down-IsSafe crashed v = v
  shut_down-IsSafe hung v = tt

  on_all_sent-IsSafe :
      (r : Reply S)
      → RepliesWith (HasSocket true) r
      → GoesOn r
      → IsSafe (on_all_sent protocol stopped r)
  unfolding on_all_sent
  on_all_sent-IsSafe (replied x s k_continue) on g = async_receive-IsSafe x s on
  on_all_sent-IsSafe (replied x s k_close) on g =
      afterwards-IsSafe (async_close protocol stopped x s)
  on_all_sent-IsSafe (replied x s k_data) on g = tt
  on_all_sent-IsSafe (replied x s k_finished) on g = g
  on_all_sent-IsSafe no_reply on g = tt

  unhold-IsSafe : (r : After S) → IsSafe r → IsSafe (unhold protocol stopped r)
  unfolding unhold
  unhold-IsSafe (after x s) v = tt
  unhold-IsSafe bad_reception_state v = tt
  unhold-IsSafe crashed v = v
  unhold-IsSafe hung v = tt

  module _ (steady : IsSteady protocol) where
    pub receive_event_cb-IsSafe :
        (x : S) (s : Session) (error : Bool) (bytes : List ℕ)
        → (error ≡ false → s.socket ≡ true)
        → IsSafe (receive_event_cb protocol stopped x s error bytes)
    unfolding receive_event_cb
    receive_event_cb-IsSafe x s error bytes on =
        let arrived = record s { reads = s.reads - 1; ubuf = s.ubuf ++ bytes } in
        let counted = record arrived {
          bytes_received = add_word s.bytes_received (length bytes);
        } in
        if_elim IsSafe error (afterwards (async_close protocol stopped x arrived))
          (on_received protocol stopped (protocol.on_data x counted))
          (λ _. afterwards-IsSafe (async_close protocol stopped x arrived))
          (λ ok.
            on_received-IsSafe (protocol.on_data x counted)
              ((steady.keeps true).on_data x counted (on ok)))

    send_more-IsSafe :
        (x : S) (s : Session) → s.socket ≡ true → IsSafe (send_more protocol stopped x s)
    unfolding send_more
    send_more-IsSafe x s on = go s.outgoing_queue.q refl
      where
        more :
            (y : ℕ) (ys : List ℕ)
            → s.outgoing_queue.q ≡ y ∷ ys
            → send_more protocol stopped x s ≡ after x (record s { writes = suc s.writes })
        more y ys e = unfold async_send started in ground (arith, e, on)

        all_sent :
            s.outgoing_queue.q ≡ []
            → send_more protocol stopped x s
              ≡ shut_down protocol stopped (on_all_sent protocol stopped (protocol.on_sent x s))
        all_sent e = ground (arith, e)

        go : (q : List ℕ) → s.outgoing_queue.q ≡ q → IsSafe (send_more protocol stopped x s)
        go [] e = subst IsSafe (sym (all_sent e)) (
            shut_down-IsSafe (on_all_sent protocol stopped (protocol.on_sent x s)) (
              on_all_sent-IsSafe (protocol.on_sent x s) ((steady.keeps true).on_sent x s on)
                (steady.goes_on x s)))
        go (y ∷ ys) e = subst IsSafe (sym (more y ys e)) tt

    pub send_event_cb-IsSafe :
        (x : S) (s : Session) (error : Bool) (n : ℕ) (qb : ℕ) (rest : List ℕ)
        → s.outgoing_queue.q ≡ qb ∷ rest
        → s.socket ≡ true
        → IsSafe (send_event_cb protocol stopped x s error n)
    unfolding send_event_cb
    send_event_cb-IsSafe x s error n qb rest e on =
        let sent = record s { writes = s.writes - 1; bytes_sent = add_word s.bytes_sent n } in
        let cleared = record sent { outgoing_queue = DynamicQueue.clear s.outgoing_queue } in
        let popped = record sent { outgoing_queue = record { q = rest } } in
        let result : send_event_cb protocol stopped x s error n ≡ (
            if error
            then afterwards (async_close protocol stopped x cleared)
            else send_more protocol stopped x popped) =
          ground (arith, e) in
        subst IsSafe (sym result) (
          if_elim IsSafe error (afterwards (async_close protocol stopped x cleared))
            (send_more protocol stopped x popped)
            (λ _. afterwards-IsSafe (async_close protocol stopped x cleared))
            (λ _. send_more-IsSafe x popped on))

    pub session_start-IsSafe :
        (x : S) (s : Session) → s.socket ≡ true → IsSafe (session_start protocol stopped x s)
    unfolding session_start
    session_start-IsSafe x s on =
        let (x', s') = protocol.start x s in
        unhold-IsSafe (async_receive protocol stopped x' s')
          (async_receive-IsSafe x' s' ((steady.keeps true).start x s on))

-- A read that has been cancelled, as when the socket is closed, ends with an error.
abbrev pub Cancels {ℓ} : {S : Type ℓ} → Event → After S → Type 0
Cancels (received error bytes) (after x s) = error ≡ false → s.socket ≡ true
Cancels (received error bytes) bad_reception_state = Unit
Cancels (received error bytes) crashed = Unit
Cancels (received error bytes) hung = Unit
Cancels (sent error n) r = Unit
Cancels posted r = Unit

pub Cancels-failed {ℓ} :
    {S : Type ℓ} (bytes : List ℕ) (r : After S) → Cancels (received true bytes) r
Cancels-failed bytes (after x s) = λ e. cc e
Cancels-failed bytes bad_reception_state = tt
Cancels-failed bytes crashed = tt
Cancels-failed bytes hung = tt

module _ {ℓ} {S : Type ℓ} (protocol : Protocol S) where
  abbrev pub CancelsAll : List (Event × Bool) → After S → Type 0
  CancelsAll [] r = Unit
  CancelsAll (e ∷ es) r = Cancels e.0 r × CancelsAll es (deliver protocol e r)

  module _ (lawful : IsLawful protocol) (steady : IsSteady protocol) where
    handle-IsSafe :
        (e : Event) (stopped : Bool) (x : S) (s : Session)
        → IsValid s
        → Cancels e (after x s)
        → is_pending protocol e s ≡ true
        → IsSafe (handle protocol e stopped x s)
    handle-IsSafe (received error bytes) stopped x s v c h =
        receive_event_cb-IsSafe protocol stopped steady x s error bytes c
    handle-IsSafe (sent error n) stopped x s v c h = go s.outgoing_queue.q refl
      where
        go :
            (q : List ℕ)
            → s.outgoing_queue.q ≡ q
            → IsSafe (send_event_cb protocol stopped x s error n)
        go [] e = absurd (ground (arith, h, v.single, e))
        go (y ∷ ys) e =
            send_event_cb-IsSafe protocol stopped steady x s error n y ys e
              (ground (arith, e, v.drained, v.open_socket))
    handle-IsSafe posted stopped x s v c h =
        afterwards-IsSafe protocol stopped (close_event protocol stopped x s)

    deliver-IsSafe :
        (e : Event × Bool) (r : After S)
        → IsFine r
        → Cancels e.0 r
        → IsSafe r
        → IsSafe (deliver protocol e r)
    unfolding deliver
    deliver-IsSafe (e, stopped) (after x s) v c safe =
        if_elim IsSafe (is_pending protocol e s) (handle protocol e stopped x s) (after x s)
          (λ h. handle-IsSafe e stopped x s v c h) (λ _. tt)
    deliver-IsSafe e bad_reception_state v c safe = tt
    deliver-IsSafe e crashed v c safe = safe
    deliver-IsSafe e hung v c safe = tt

    run-IsSafe_after :
        (es : List (Event × Bool)) (r : After S)
        → IsFine r
        → IsSafe r
        → CancelsAll es r
        → IsSafe (run protocol es r)
    unfolding run
    run-IsSafe_after [] r v safe c = safe
    run-IsSafe_after (e ∷ es) r v safe c =
        run-IsSafe_after es (deliver protocol e r) (deliver-IsFine protocol lawful e r v)
          (deliver-IsSafe e r v c.0 safe) c.1

    pub run-IsSafe :
        (es : List (Event × Bool)) (stopped : Bool) (x : S) (s : Session) (c : LsContext) (item : ℕ)
        → s.outgoing_queue.q ≡ []
        → s.writes ≡ 0
        → CancelsAll es (session_start protocol stopped x (setup s c item))
        → IsSafe (run protocol es (session_start protocol stopped x (setup s c item)))
    unfolding setup
    run-IsSafe es stopped x s c item empty idle cancels =
        run-IsSafe_after es (session_start protocol stopped x (setup s c item))
          (session_start-IsFine protocol lawful stopped x (setup s c item)
            (setup-IsValid s c item empty idle))
          (session_start-IsSafe protocol stopped steady x (setup s c item) refl) cancels
