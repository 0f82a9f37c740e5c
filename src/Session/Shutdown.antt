-- ===== src/Session/Shutdown.antt =====
-- How a session of src/session.hpp waits for data, gives its context back, and is closed late.
use lserver.Prelude.{
  ℕ, ◌+◌, ◌-◌, ◌^◌, ◌≤◌, ◌<◌, ◌≡◌, refl, Bool, true, false, Option, none, some, List, [], ◌∷◌,
  arith, min,
}
use lserver.Pool
use lserver.Pool.{Pool}
use lserver.LsContext
use lserver.LsContext.{LsContext}
use lserver.Session.{
  Session, Protocol, setup, next_transfer_sz, max_transfer_sz, finalize, run_once, close_once,
  close_event, release, put_strand,
}

-- With counters below 2 ^ 63, a session waits for one byte when no length has been set; and
-- otherwise for what is missing, up to 256 KiB, it fails when nothing is missing, and it waits for
-- 256 KiB when more than was expected has arrived.
pub next_transfer_sz_lem :
    (s : Session)
    → s.expected_data_chunck_sz < 2 ^ 63
    → s.bytes_received < 2 ^ 63
    → (s.expected_data_chunck_sz_set ≡ false → next_transfer_sz s ≡ some 1)
      × (s.expected_data_chunck_sz_set ≡ true
          → s.bytes_received < s.expected_data_chunck_sz
          → next_transfer_sz s
            ≡ some (min (s.expected_data_chunck_sz - s.bytes_received) max_transfer_sz))
      × (s.expected_data_chunck_sz_set ≡ true
          → s.bytes_received ≡ s.expected_data_chunck_sz
          → next_transfer_sz s ≡ none)
      × (s.expected_data_chunck_sz_set ≡ true
          → s.expected_data_chunck_sz < s.bytes_received
          → next_transfer_sz s ≡ some max_transfer_sz)
unfolding next_transfer_sz
next_transfer_sz_lem s h k = (
  λ unset. ground arith,
  λ set more. ground arith,
  λ set full. ground arith,
  λ set over. ground arith,
)

-- A strand that is borrowed and put back, between a `ref` and a `deref`.
abbrev Balances : LsContext → LsContext → Type 0
Balances c d =
    (d.ref_cnt ≡ c.ref_cnt)
    × (Pool.get_in_flight_cnt d.strand_pool ≡ Pool.get_in_flight_cnt c.strand_pool)

abbrev lent_back : LsContext × Option ℕ → LsContext
lent_back (c, strand) = LsContext.deref (put_strand c strand)

lent_back-Balances :
    (c : LsContext) (item : ℕ)
    → c.strand_pool.max_size ≡ 0
    → c.strand_pool.callback_active ≡ false
    → c.ref_cnt + 1 < 2 ^ 64
    → c.strand_pool.num_items_in_flight + 1 < 2 ^ 64
    → Balances c (lent_back (LsContext.borrow_strand (LsContext.ref c) item))
unfolding LsContext.borrow_strand LsContext.ref LsContext.deref LsContext.put_strand put_strand
    Pool.borrow Pool.put_back
lent_back-Balances c item unlimited idle room room' = go c.strand_pool.pool refl
  where
    go :
        (xs : List ℕ)
        → c.strand_pool.pool ≡ xs
        → Balances c (lent_back (LsContext.borrow_strand (LsContext.ref c) item))
    go [] e = (ground arith, ground arith)
    go (x ∷ xs) e = (ground arith, ground arith)

module _ {ℓ} {S : Type ℓ} (protocol : Protocol S) (stopped : Bool) where
  -- When two posted handlers are to close a session that has not ended and has nothing to send,
  -- the first ends it; if the session is then set up for a new connection, the second is still to
  -- come and ends that connection too.
  pub close_event-late :
      (x : S) (s : Session) (c : LsContext) (item : ℕ)
      → s.outgoing_queue.q ≡ []
      → s.invoked ≡ false
      → 2 ≤ s.closes
      → let first = close_event protocol stopped x s in
        let again = setup first.1 c item in
        (first.1.finalized ≡ s.finalized + 1)
        × (again.socket ≡ true)
        × (0 < again.closes)
        × ((close_event protocol stopped first.0 again).1.socket ≡ false)
        × ((close_event protocol stopped first.0 again).1.finalized ≡ 1)
  unfolding close_event close_once run_once finalize setup
  close_event-late x s c item empty alive two =
      (ground arith, refl, ground arith, ground arith, ground arith)

  -- Setting up a session with nothing to send, on a context whose unlimited strand pool has no
  -- waiting client and whose counters have room, and closing it at once leaves the context with
  -- the count of sessions and of lent strands that it had.
  pub close_once-setup :
      (x : S) (s : Session) (c : LsContext) (item : ℕ)
      → s.outgoing_queue.q ≡ []
      → c.strand_pool.max_size ≡ 0
      → c.strand_pool.callback_active ≡ false
      → c.ref_cnt + 1 < 2 ^ 64
      → c.strand_pool.num_items_in_flight + 1 < 2 ^ 64
      → (d : LsContext) × ((close_once protocol stopped x (setup s c item)).1.lscontext ≡ some d)
        × (d.ref_cnt ≡ c.ref_cnt)
        × (Pool.get_in_flight_cnt d.strand_pool ≡ Pool.get_in_flight_cnt c.strand_pool)
  unfolding close_once run_once finalize setup release
  close_once-setup x s c item empty unlimited idle room room' = (
    lent_back (LsContext.borrow_strand (LsContext.ref c) item),
    ground arith,
    (lent_back-Balances c item unlimited idle room room').0,
    (lent_back-Balances c item unlimited idle room room').1,
  )

  -- A pass of the posted handler over a session with nothing to send.
  pub close_event-ends :
      (x : S) (s : Session)
      → s.outgoing_queue.q ≡ []
      → s.invoked ≡ false
      → ((close_event protocol stopped x s).1.socket ≡ false)
        × ((close_event protocol stopped x s).1.finalized ≡ s.finalized + 1)
  unfolding close_event close_once run_once finalize
  close_event-ends x s empty alive = (ground arith, ground arith)
