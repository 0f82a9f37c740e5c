-- ===== src/Session/References.antt =====
-- The reference of a session of src/session.hpp to its context: it has one until it ends.
use lserver.Prelude.{
  ℕ, ◌^◌, ◌<◌, ◌==◌, ◌≡◌, refl, ap, Bool, true, false, Option, none, some, arith, if◌then◌else◌,
  if_elim, add_word,
}
use lserver.LsContext
use lserver.LsContext.{LsContext}
use lserver.Session.{
  Session, Protocol, After, after, bad_reception_state, crashed, hung, setup, put_strand, release,
  async_receive, session_start, unhold,
}
use lserver.Session.Contexts.{On, OnAfter, On-IsKept, async_receive-On, deliver-On}
use lserver.Session.Callbacks.{IsKept, Keeps}
use lserver.Session.Events.{Event, deliver}

-- The context has `n` references besides that of the session, which has ended if it had before.
abbrev pub Attaches : (n : ℕ) (before : Bool) → Option LsContext → Bool → Type 0
Attaches n before o invoked =
    (d : LsContext) × (o ≡ some d)
    × (d.ref_cnt ≡ (if invoked then n else add_word n 1))
    × (before ≡ true → invoked ≡ true)

abbrev pub Attached : (n : ℕ) (before : Bool) → Session → Type 0
Attached n before = On (Attaches n before)

abbrev pub AttachedAfter {ℓ} : {S : Type ℓ} → ℕ → Bool → After S → Type 0
AttachedAfter n before = OnAfter (Attaches n before)

put_strand-ref_cnt : (c : LsContext) (strand : Option ℕ) → (put_strand c strand).ref_cnt ≡ c.ref_cnt
unfolding put_strand LsContext.put_strand
put_strand-ref_cnt c none = refl
put_strand-ref_cnt c (some strand) = refl

pub setup-Attached :
    (s : Session) (c : LsContext) (item : ℕ) → Attached c.ref_cnt false (setup s c item)
unfolding setup LsContext.ref LsContext.borrow_strand
setup-Attached s c item = (
  (LsContext.borrow_strand (LsContext.ref c) item).0,
  refl,
  if_elim (λ (r : LsContext × Option ℕ). r.0.ref_cnt ≡ add_word c.ref_cnt 1) (c.num_threads == 1) _
      _ (λ _. refl) (λ _. refl),
  λ e. cc e,
)

pub Attached-IsKept : (n : ℕ) (before : Bool) → IsKept (Attached n before)
Attached-IsKept n before = On-IsKept (Attaches n before)

release-Attaches :
    (n : ℕ) (before : Bool)
    → n < 2 ^ 64
    → (o : Option LsContext) (strand : Option ℕ) → Attaches n before o false
    → Attaches n before (release o strand) true
unfolding release LsContext.deref
release-Attaches n before small o strand (d, on, e, still) = (
  LsContext.deref (put_strand d strand),
  ap (λ o. release o strand) on,
  unfold LsContext.deref in ground (arith, put_strand-ref_cnt d strand, e, small),
  λ _. refl,
)

module _ {ℓ} {S : Type ℓ} (protocol : Protocol S) (stopped before : Bool) (n : ℕ)
    (small : n < 2 ^ 64) where
  unhold-Attached :
      (r : After S) → AttachedAfter n before r → AttachedAfter n before (unhold protocol stopped r)
  unfolding unhold LsContext.unhold
  unhold-Attached (after x s) (d, on, e, still) = (
    LsContext.unhold d,
    ap (λ o. elim o as (λ _. Option LsContext) [ none ↦ none | some c ↦ some (LsContext.unhold c) ])
        on,
    e,
    still,
  )
  unhold-Attached bad_reception_state v = tt
  unhold-Attached crashed v = tt
  unhold-Attached hung v = tt

  -- A protocol that uses its session by its methods alone.
  module _ (keeps : Keeps (Attached n before) protocol) where
    -- An event leaves the other references as they are, and ends that of the session if it ends it.
    pub deliver-Attached :
        (e : Event) (x : S) (s : Session)
        → Attached n before s
        → AttachedAfter n before (deliver protocol (e, stopped) (after x s))
    deliver-Attached =
        deliver-On (Attaches n before) protocol stopped (release-Attaches n before small) keeps

    pub session_start-Attached :
        (x : S) (s : Session)
        → Attached n before s
        → AttachedAfter n before (session_start protocol stopped x s)
    unfolding session_start
    session_start-Attached x s v =
        let (x', s') = protocol.start x s in
        unhold-Attached (async_receive protocol stopped x' s') (
          async_receive-On (Attaches n before) protocol stopped (release-Attaches n before small) x'
            s' (keeps.start x s v))
