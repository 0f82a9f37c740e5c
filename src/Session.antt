-- ===== src/Session.antt =====
-- src/session.hpp: a connection, between asio and the protocol that is derived from it.
-- `reads`, `writes` and `closes` count what asio has been asked to do and has not yet done; their
-- completions are the events. `*socket_` without a socket is `crashed`. The callback that ends a
-- session is counted in `finalized` from `setup` on. The calls of `on_error`, which logs, are left
-- out; what is counted for statistics is in SessionPool. The context is as the session finds it.
pub mod Callbacks
pub mod Writes
pub mod Handlers
pub mod Events
pub mod Safe
pub mod Contexts
pub mod References
pub mod Shutdown
pub mod Deferred
pub mod Start
use lserver.Prelude.{
  ℕ, suc, ◌-◌, ◌+◌, ◌*◌, Bool, true, false, Option, none, some, List, [], ◌∷◌, ◌++◌, ltb, ◌==◌,
  if◌then◌else◌, add_word, sub_word, length, drop,
}
use lserver.DynamicQueue
use lserver.DynamicQueue.{DynamicQueue}
use lserver.LsContext
use lserver.LsContext.{LsContext}

pub data Feedback : Type 0 where
  k_finished k_continue k_close k_data : Feedback

pub record Session : Type 0 where
  pub outgoing_queue : DynamicQueue
  pub ubuf : List ℕ
  pub socket : Bool
  pub lscontext : Option LsContext
  pub strand : Option ℕ
  pub expected_data_chunck_sz : ℕ
  pub expected_data_chunck_sz_set : Bool
  pub prepare_for_shutdown : Bool
  pub invoked : Bool  -- of `close_once_flag_`
  pub bytes_received : ℕ
  pub bytes_sent : ℕ
  pub reads : ℕ
  pub writes : ℕ
  pub closes : ℕ
  pub finalized : ℕ

-- What the session knows of the protocol: its callbacks, which use the session.
pub data Reply {ℓ} (S : Type ℓ) : Type ℓ where
  replied : S → Session → Feedback → Reply S
  no_reply : Reply S

pub record Protocol {ℓ} (S : Type ℓ) : Type ℓ where
  pub start : S → Session → S × Session
  pub on_data : S → Session → Reply S
  pub on_sent : S → Session → Reply S
  pub on_closed : S → S

pub data After {ℓ} (S : Type ℓ) : Type ℓ where
  after : S → Session → After S
  bad_reception_state : After S
  crashed : After S
  hung : After S  -- in a callback

unfoldable pub reset_buffers : Session → Session
reset_buffers s = record s {
  expected_data_chunck_sz_set = false;
  expected_data_chunck_sz = 0;
  bytes_received = 0;
  bytes_sent = 0;
  ubuf = [];
}

unfoldable pub consume : Session → ℕ → Session
consume s length =
    if length == 0 then record s { ubuf = [] } else record s { ubuf = drop length s.ubuf }

unfoldable pub set_expected_data_length : Session → ℕ → Session
set_expected_data_length s len = record s {
  expected_data_chunck_sz = len;
  expected_data_chunck_sz_set = true;
}

unfoldable pub check_finished : Session → Bool
check_finished s =
    if s.expected_data_chunck_sz_set
    then (if ltb s.bytes_received s.expected_data_chunck_sz then false else true)
    else false

-- The strand that the context lends, if it has more than one thread; `item` would be created.
unfoldable pub setup : Session → LsContext → (item : ℕ) → Session
setup s lscontext item =
    let (c, strand) = LsContext.borrow_strand (LsContext.ref lscontext) item in
    record s { lscontext = some c; strand = strand; socket = true; invoked = false; finalized = 0 }

unfoldable pub async_send : Session → Option Session
async_send s = elim (DynamicQueue.front s.outgoing_queue) [
  | none ↦ none
  | some qb ↦ if s.socket then some (record s { writes = suc s.writes }) else none
]

unfoldable pub send : Session → (qb : ℕ) → Option Session
unfolding async_send
send s qb =
    let s' = record s { outgoing_queue = DynamicQueue.push s.outgoing_queue qb } in
    if DynamicQueue.empty s.outgoing_queue then async_send s' else some s'

abbrev pub max_transfer_sz : ℕ
max_transfer_sz = 256 * 1024

-- The least number of bytes to wait for; `none` is `BadReceptionState`.
unfoldable pub next_transfer_sz : Session → Option ℕ
next_transfer_sz s =
    let remaining = sub_word s.expected_data_chunck_sz s.bytes_received in
    if s.expected_data_chunck_sz_set
    then (if remaining == 0
        then none
        else some (if ltb remaining max_transfer_sz then remaining else max_transfer_sz))
    else some 1

unfoldable pub put_strand : LsContext → Option ℕ → LsContext
put_strand c none = c
put_strand c (some strand) = LsContext.put_strand c strand

unfoldable pub release : Option LsContext → Option ℕ → Option LsContext
unfolding put_strand
release none strand = none
release (some c) strand = some (LsContext.deref (put_strand c strand))

abbrev pub afterwards {ℓ} : {S : Type ℓ} → S × Session → After S
afterwards (x, s) = after x s

-- `stopped` is what `lscontext_->stopped()` answers.
module _ {ℓ} {S : Type ℓ} (protocol : Protocol S) (stopped : Bool) where
  unfoldable pub finalize : S → Session → S × Session
  unfolding release
  finalize x s = (
    protocol.on_closed x,
    record s {
      socket = false;
      lscontext = release s.lscontext s.strand;
      strand = none;
      finalized = suc s.finalized;
    },
  )

  -- `close_once_flag_.run_once` of `finalize`.
  unfoldable pub run_once : S → Session → S × Session
  unfolding finalize
  run_once x s =
      let (x', s') = finalize x s in
      if s.invoked then (x, s) else (x', record s' { invoked = true })

  unfoldable pub close_once : S → Session → S × Session
  unfolding run_once
  close_once x s =
      if DynamicQueue.empty s.outgoing_queue
      then run_once x s
      else (x, record s { prepare_for_shutdown = true })

  unfoldable pub async_close : S → Session → S × Session
  unfolding close_once
  async_close x s =
      let s' = record s { closes = suc s.closes } in if stopped then close_once x s' else (x, s')

  unfoldable pub async_receive : S → Session → After S
  unfolding next_transfer_sz close_once
  async_receive x s =
      let s' = record s { reads = suc s.reads } in
      elim (next_transfer_sz s) [
        | none ↦ bad_reception_state
        | some least ↦ elim s.socket [
          | false ↦ crashed
          | true ↦ afterwards (if stopped then close_once x s' else (x, s'))
        ]
      ]

  unfoldable pub unhold : After S → After S
  unhold (after x s) = after x (record s {
    lscontext = elim s.lscontext [ none ↦ none | some c ↦ some (LsContext.unhold c) ];
  })
  unhold bad_reception_state = bad_reception_state
  unhold crashed = crashed
  unhold hung = hung

  unfoldable pub session_start : S → Session → After S
  unfolding async_receive unhold
  session_start x s = let (x', s') = protocol.start x s in unhold (async_receive x' s')

  -- The `switch` of `receive_event_cb`.
  unfoldable pub on_received : Reply S → After S
  unfolding async_receive async_close
  on_received (replied x s k_continue) = async_receive x s
  on_received (replied x s k_close) = afterwards (async_close x s)
  on_received (replied x s k_finished) = after x s
  on_received (replied x s k_data) = after x s
  on_received no_reply = hung

  -- `bytes` are what asio has put into the buffer.
  unfoldable pub receive_event_cb : S → Session → (error : Bool) → (bytes : List ℕ) → After S
  unfolding on_received
  receive_event_cb x s error bytes =
      let s' = record s { reads = s.reads - 1; ubuf = s.ubuf ++ bytes } in
      if error
      then afterwards (async_close x s')
      else on_received (
          protocol.on_data x
            (record s' { bytes_received = add_word s.bytes_received (length bytes) }))

  -- The deferred shutdown at the end of `send_event_cb`.
  unfoldable pub shut_down : After S → After S
  unfolding async_close
  shut_down (after x s) =
      if s.prepare_for_shutdown
      then afterwards (async_close x (record s { prepare_for_shutdown = false }))
      else after x s
  shut_down bad_reception_state = bad_reception_state
  shut_down crashed = crashed
  shut_down hung = hung

  -- The `switch` of `send_event_cb`; `kFinished` is said to be unreachable.
  unfoldable pub on_all_sent : Reply S → After S
  unfolding async_receive async_close
  on_all_sent (replied x s k_continue) = async_receive x s
  on_all_sent (replied x s k_close) = afterwards (async_close x s)
  on_all_sent (replied x s k_data) = after x s
  on_all_sent (replied x s k_finished) = crashed
  on_all_sent no_reply = hung

  unfoldable pub started : S → Option Session → After S
  started x none = crashed
  started x (some s) = after x s

  -- What `send_event_cb` does once the buffer that was sent is off the queue.
  unfoldable pub send_more : S → Session → After S
  unfolding on_all_sent shut_down started
  send_more x s =
      if DynamicQueue.empty s.outgoing_queue
      then shut_down (on_all_sent (protocol.on_sent x s))
      else started x (async_send s)

  unfoldable pub send_event_cb : S → Session → (error : Bool) → (bytes_transferred : ℕ) → After S
  unfolding send_more
  send_event_cb x s error bytes_transferred =
      let s' = record s {
        writes = s.writes - 1;
        bytes_sent = add_word s.bytes_sent bytes_transferred;
      } in
      if error
      then afterwards
          (async_close x (record s' { outgoing_queue = DynamicQueue.clear s.outgoing_queue }))
      else elim (DynamicQueue.pop s.outgoing_queue) [
        | none ↦ crashed
        | some q ↦ send_more x (record s' { outgoing_queue = q })
      ]

  -- The handler that `async_close` posts.
  unfoldable pub close_event : S → Session → S × Session
  close_event x s = close_once x (record s { closes = s.closes - 1 })
