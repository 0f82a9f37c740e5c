-- ===== src/Session/Start.antt =====
-- `session_start` of src/session.hpp gives up the hold on its context.
use lserver.Prelude.{
  ℕ, suc, ◌==◌, ◌≡◌, refl, ap, ◌∙◌, Bool, true, false, Option, none, some, arith, if_elim, sub_word,
  if◌then◌else◌, sym, subst,
}
use lserver.LsContext
use lserver.LsContext.{LsContext}
use lserver.Session.{
  Session, Protocol, After, after, reset_buffers, setup, put_strand, release, close_once,
  async_receive, unhold, session_start, next_transfer_sz, afterwards,
}
use lserver.Session.Callbacks.{Keeps}
use lserver.Session.Contexts.{On, OnAfter, close_once-On, deliver-On}
use lserver.Session.Events.{Event, deliver}

-- The session is on a context that differs from this one in its strands and references alone.
abbrev pub Same : LsContext → Option LsContext → Bool → Type 0
Same c o invoked =
    (d : LsContext) × (o ≡ some d) × (d.hold_cnt ≡ c.hold_cnt) × (d.active ≡ c.active)

abbrev pub IsOn : LsContext → Session → Type 0
IsOn c = On (Same c)

borrow_strand-holds :
    (c : LsContext) (item : ℕ)
    → ((LsContext.borrow_strand c item).0.hold_cnt ≡ c.hold_cnt)
      × ((LsContext.borrow_strand c item).0.active ≡ c.active)
unfolding LsContext.borrow_strand
borrow_strand-holds c item =
    if_elim (λ (r : LsContext × Option ℕ). (r.0.hold_cnt ≡ c.hold_cnt) × (r.0.active ≡ c.active))
      (c.num_threads == 1) _ _ (λ _. (refl, refl)) (λ _. (refl, refl))

pub setup-IsOn : (s : Session) (c : LsContext) (item : ℕ) → IsOn c (setup s c item)
unfolding setup LsContext.ref
setup-IsOn s c item = (
  (LsContext.borrow_strand (LsContext.ref c) item).0,
  refl,
  (borrow_strand-holds (LsContext.ref c) item).0,
  (borrow_strand-holds (LsContext.ref c) item).1,
)

pub put_strand-holds :
    (c : LsContext) (strand : Option ℕ)
    → ((put_strand c strand).hold_cnt ≡ c.hold_cnt) × ((put_strand c strand).active ≡ c.active)
unfolding put_strand LsContext.put_strand
put_strand-holds c none = (refl, refl)
put_strand-holds c (some strand) = (refl, refl)

release-Same :
    (c : LsContext) (o : Option LsContext) (strand : Option ℕ)
    → Same c o false
    → Same c (release o strand) true
unfolding release LsContext.deref
release-Same c o strand (d, e, h, a) =
    let (h', a') = put_strand-holds d strand in
    (LsContext.deref (put_strand d strand), ap (λ o. release o strand) e, h' ∙ h, a' ∙ a)

module _ {ℓ} {S : Type ℓ} (protocol : Protocol S) (stopped : Bool) where
  -- An event of a session changes neither the holds on its context nor whether it is active.
  pub deliver-IsOn :
      (c : LsContext)
      → Keeps (IsOn c) protocol
      → (e : Event) (x : S) (s : Session) → IsOn c s
      → OnAfter (Same c) (deliver protocol (e, stopped) (after x s))
  deliver-IsOn c keeps = deliver-On (Same c) protocol stopped (release-Same c) keeps

  abbrev RunsOn : LsContext → After S → Type ℓ
  RunsOn c r = (x : S) × (s : Session) × (r ≡ after x s) × IsOn c s

  async_receive-RunsOn :
      (c : LsContext) (x : S) (s : Session)
      → s.socket ≡ true
      → s.expected_data_chunck_sz_set ≡ false
      → IsOn c s
      → RunsOn c (async_receive protocol stopped x s)
  unfolding async_receive next_transfer_sz
  async_receive-RunsOn c x s open_socket unset v =
      let s' = record s { reads = suc s.reads } in
      let e : async_receive protocol stopped x s
          ≡ afterwards (if stopped then close_once protocol stopped x s' else (x, s')) =
        ground arith in
      subst (RunsOn c) (sym e) (
        if_elim (λ (r : S × Session). RunsOn c (afterwards r)) stopped
          (close_once protocol stopped x s') (x, s')
          (λ _. (_, _, refl, close_once-On (Same c) protocol stopped (release-Same c) x s' v))
          (λ _. (x, s', refl, v)))

  -- The handler has returned, with one hold less on the context.
  abbrev pub Leaves : LsContext → After S → Type ℓ
  Leaves c r =
      (x : S) × (s : Session) × (d : LsContext) × (r ≡ after x s)
      × (s.lscontext ≡ some d)
      × (d.hold_cnt ≡ sub_word c.hold_cnt 1)
      × (d.active ≡ c.active)

  unhold-Leaves : (c : LsContext) (r : After S) → RunsOn c r → Leaves c (unhold protocol stopped r)
  unfolding unhold LsContext.unhold
  unhold-Leaves c r (x, s, e, (d, on, h, a)) =
      let unheld : Option LsContext → Option LsContext =
        λ o. elim o [ none ↦ none | some c' ↦ some (LsContext.unhold c') ] in
      (
        x,
        record s { lscontext = unheld s.lscontext },
        LsContext.unhold d,
        ap (unhold protocol stopped) e,
        ap unheld on,
        ap (λ n. sub_word n 1) h,
        a,
      )

  pub session_start-Leaves :
      (x : S) (s : Session) (c : LsContext) (item : ℕ)
      → (protocol.start x (setup s c item)).1 ≡ reset_buffers (setup s c item)
      → Leaves c (session_start protocol stopped x (setup s c item))
  unfolding session_start setup reset_buffers
  session_start-Leaves x s c item starts =
      let x' = (protocol.start x (setup s c item)).0 in
      unhold-Leaves c (async_receive protocol stopped x' (protocol.start x (setup s c item)).1) (
        subst (λ t. RunsOn c (async_receive protocol stopped x' t)) (sym starts)
          (async_receive-RunsOn c x' (reset_buffers (setup s c item)) refl refl
            (setup-IsOn s c item)))
