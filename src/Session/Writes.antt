-- ===== src/Session/Writes.antt =====
-- One write at a time, and one shutdown for each connection (src/session.hpp).
use lserver.Prelude.{
  drop, ◌==◌, ℕ, suc, ◌≡◌, refl, Bool, true, false, not, Option, none, some, List, [], ◌∷◌, arith,
  if◌then◌else◌, is_empty, subst, sym, if_elim,
}
use lserver.DynamicQueue
use lserver.DynamicQueue.{DynamicQueue}
use lserver.Session.Callbacks.{SendsWith, RepliesWith, IsKept, Keeps}
use lserver.Session.{
  consume, set_expected_data_length, reset_buffers, Session, Reply, Protocol, After, after,
  bad_reception_state, crashed, hung, async_send, send, next_transfer_sz, finalize, run_once,
  close_once, async_close, async_receive, afterwards,
}

-- A write is in flight exactly when there is something to send, and there is one alone. A
-- session that has been shut down has ended once, has no socket and nothing to send.
pub record IsValid (s : Session) : Type 0 where
  pub single : s.writes ≡ (if is_empty s.outgoing_queue.q then 0 else 1)
  pub once : s.finalized ≡ (if s.invoked then 1 else 0)
  pub open_socket : s.socket ≡ not s.invoked
  pub drained : s.invoked ≡ true → s.outgoing_queue.q ≡ []

abbrev pub Sends : Option Session → Type 0
Sends = SendsWith IsValid

-- A buffer put into an idle queue is written at once.
pub async_send-Sends :
    (s : Session) (qb : ℕ) (rest : List ℕ)
    → s.outgoing_queue.q ≡ qb ∷ rest
    → s.writes ≡ 0
    → s.finalized ≡ (if s.invoked then 1 else 0)
    → s.socket ≡ not s.invoked
    → Sends (async_send s)
unfolding async_send
async_send-Sends s qb rest e w f o =
    let started = record s { writes = suc s.writes } in
    let front : async_send s ≡ (if s.socket then some started else none) = ground (arith, e) in
    subst Sends (sym front) (
      if_elim Sends s.socket (some started) none
        (λ on. record {
          single = ground (arith, e);
          once = f;
          open_socket = o;
          drained = λ i. ground arith;
        })
        (λ off. tt))

send-Sends : (s : Session) (qb : ℕ) → IsValid s → Sends (send s qb)
unfolding send
send-Sends s qb v = go s.outgoing_queue.q refl
  where
    pushed : Session
    pushed = record s { outgoing_queue = DynamicQueue.push s.outgoing_queue qb }

    idle : s.outgoing_queue.q ≡ [] → send s qb ≡ async_send pushed
    idle e = ground (arith, e)

    busy : (x : ℕ) (xs : List ℕ) → s.outgoing_queue.q ≡ x ∷ xs → send s qb ≡ some pushed
    busy x xs e = ground (arith, e)

    go : (q : List ℕ) → s.outgoing_queue.q ≡ q → Sends (send s qb)
    go [] e = subst Sends (sym (idle e)) (
        async_send-Sends pushed qb [] (ground arith) (ground (arith, v.single)) v.once
          v.open_socket)
    go (x ∷ xs) e = subst Sends (sym (busy x xs e)) (record {
      single = ground (arith, v.single);
      once = v.once;
      open_socket = v.open_socket;
      drained = λ i. ground (arith, v.drained);
    })

-- A session that a handler leaves is valid.
abbrev pub IsFine {ℓ} : {S : Type ℓ} → After S → Type 0
IsFine (after x s) = IsValid s
IsFine bad_reception_state = Unit
IsFine crashed = Unit
IsFine hung = Unit

module _ {ℓ} {S : Type ℓ} (protocol : Protocol S) (stopped : Bool) where
  pub close_once-IsValid :
      (x : S) (s : Session) → IsValid s → IsValid (close_once protocol stopped x s).1
  unfolding close_once run_once finalize
  close_once-IsValid x s v =
      if_elim (λ (r : S × Session). IsValid r.1) (is_empty s.outgoing_queue.q)
        (run_once protocol stopped x s) (x, record s { prepare_for_shutdown = true })
        (λ empty.
          if_elim (λ (r : S × Session). IsValid r.1) s.invoked (x, s)
            (
              (finalize protocol stopped x s).0,
              record ((finalize protocol stopped x s).1) { invoked = true },
            )
            (λ before. v)
            (λ first. record {
              single = v.single;
              once = ground (arith, v.once);
              open_socket = refl;
              drained = λ i. ground arith;
            }))
        (λ waiting. record {
          single = v.single;
          once = v.once;
          open_socket = v.open_socket;
          drained = v.drained;
        })

  pub async_close-IsValid :
      (x : S) (s : Session) → IsValid s → IsValid (async_close protocol stopped x s).1
  unfolding async_close
  async_close-IsValid x s v =
      let posted = record s { closes = suc s.closes } in
      let w : IsValid posted = record {
        single = v.single;
        once = v.once;
        open_socket = v.open_socket;
        drained = v.drained;
      } in
      if_elim (λ (r : S × Session). IsValid r.1) stopped (close_once protocol stopped x posted)
        (x, posted) (λ _. close_once-IsValid x posted w) (λ _. w)

  pub afterwards-IsFine : (r : S × Session) → IsValid r.1 → IsFine (afterwards r)
  afterwards-IsFine (x, s) v = v

  pub async_close-IsFine :
      (x : S) (s : Session) → IsValid s → IsFine (afterwards (async_close protocol stopped x s))
  async_close-IsFine x s v =
      afterwards-IsFine (async_close protocol stopped x s) (async_close-IsValid x s v)

  pub async_receive-IsFine :
      (x : S) (s : Session) → IsValid s → IsFine (async_receive protocol stopped x s)
  unfolding async_receive
  async_receive-IsFine x s v = go (next_transfer_sz s) s.socket
    where
      reading : Session
      reading = record s { reads = suc s.reads }

      w : IsValid reading
      w = record {
        single = v.single;
        once = v.once;
        open_socket = v.open_socket;
        drained = v.drained;
      }

      asked : S × Session
      asked = if stopped then close_once protocol stopped x reading else (x, reading)

      go :
          (least : Option ℕ) (socket : Bool)
          → IsFine (elim least [
            | none ↦ bad_reception_state
            | some n ↦ elim socket [ false ↦ crashed | true ↦ afterwards asked ]
          ])
      go none socket = tt
      go (some n) false = tt
      go (some n) true = afterwards-IsFine asked (
          if_elim (λ (r : S × Session). IsValid r.1) stopped (close_once protocol stopped x reading)
            (x, reading) (λ _. close_once-IsValid x reading w) (λ _. w))

-- What the session relies on: the callbacks of the protocol use it by its methods alone.
abbrev pub Replies {ℓ} : {S : Type ℓ} → Reply S → Type 0
Replies = RepliesWith IsValid

abbrev pub IsLawful {ℓ} : {S : Type ℓ} → Protocol S → Type ℓ
IsLawful protocol = Keeps IsValid protocol

-- The methods that a protocol calls on its session.
consume-IsValid : (s : Session) (n : ℕ) → IsValid s → IsValid (consume s n)
unfolding consume
consume-IsValid s n v =
    if_elim IsValid (n == 0) (record s { ubuf = [] }) (record s { ubuf = drop n s.ubuf })
      (λ _. record {
        single = v.single;
        once = v.once;
        open_socket = v.open_socket;
        drained = v.drained;
      })
      (λ _. record {
        single = v.single;
        once = v.once;
        open_socket = v.open_socket;
        drained = v.drained;
      })

set_expected_data_length-IsValid :
    (s : Session) (n : ℕ) → IsValid s → IsValid (set_expected_data_length s n)
unfolding set_expected_data_length
set_expected_data_length-IsValid s n v = record {
  single = v.single;
  once = v.once;
  open_socket = v.open_socket;
  drained = v.drained;
}

reset_buffers-IsValid : (s : Session) → IsValid s → IsValid (reset_buffers s)
unfolding reset_buffers
reset_buffers-IsValid s v = record {
  single = v.single;
  once = v.once;
  open_socket = v.open_socket;
  drained = v.drained;
}

pub IsValid-IsKept : IsKept IsValid
IsValid-IsKept = record {
  consume = consume-IsValid;
  set_expected_data_length = set_expected_data_length-IsValid;
  reset_buffers = reset_buffers-IsValid;
  send = send-Sends;
}
