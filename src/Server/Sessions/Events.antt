-- ===== src/Server/Sessions/Events.antt =====
-- What an event of a session leaves of the server that it belongs to (src/session.hpp, src/server.hpp).
use lserver.Prelude.{
  ℕ, ◌+◌, ◌^◌, ◌%◌, ◌<◌, ◌≡◌, refl, ap, ◌∙◌, sym, subst, inl, inr, Bool, true, false, not, none,
  some, arith, ◌==◌, ==_refl, if◌then◌else◌, if_elim, add_word, sub_word, elem, get_elem?, lookup,
  assign, lookup-assign, Bool-cases,
}
use lserver.ContextPool.Counts.{count_of}
use lserver.ContextPool.References.{ref_cnt}
use lserver.LsContext.{LsContext}
use lserver.Session.{Protocol, After, after, bad_reception_state, crashed, hung}
use lserver.Session.Callbacks.{Keeps}
use lserver.Session.Writes.{IsValid, IsFine, IsLawful}
use lserver.Session.Events.{Event, deliver, deliver-IsFine}
use lserver.Session.References.{Attached, AttachedAfter, deliver-Attached}
use lserver.Server.{Server, Object, Handled, handled, failed, set_context, session_release_cb}
use lserver.Server.Sessions.{settle, session_event}
use lserver.Server.Sessions.Cases.{session_event-cases}
use lserver.Server.Sessions.Counting.{is_live, counts_on, sessions_on}
use lserver.Server.Sessions.References.{
  IsTied, ValidAt, place-IsTied, release-IsTied, attached_amount,
}

module _ {ℓ} {S : Type ℓ} where
  -- What a handler leaves, if it returns.
  abbrev pub TiedAfter : Handled S → Type 0
  TiedAfter (handled s) = IsTied s
  TiedAfter failed = Unit

  -- An object that is written over one that was there, and put back if its session has just ended.
  module _ (s : Server S) (p : ℕ) (o o' : Object S) (c d : LsContext) (n : ℕ) (v : IsTied s)
      (there : lookup p s.objects ≡ some o)
      (at : get_elem? s.workers_pool.lscontexts o.context ≡ some c) (here : o'.context ≡ o.context)
      (small : n < 2 ^ 64) (before : c.ref_cnt ≡ (n + counts_on o.context (some o)) % 2 ^ 64)
      (after_it : d.ref_cnt ≡ (if o'.session.invoked then n else add_word n 1))
      (still : o.session.invoked ≡ true → o'.session.invoked ≡ true)
      (valid : IsValid o'.session) where
    abbrev placed : Server S
    placed = set_context (record s { objects = assign p o' s.objects }) o.context d

    pooled-invoked : elem p s.pool.base.pool ≡ true → o.session.invoked ≡ true
    pooled-invoked h = ground (arith, ap is_live there, v.ended p h)

    placed-IsTied : IsTied placed
    placed-IsTied =
        place-IsTied s p o.context c d o' v at here
          (λ i differ. ap (counts_on i) there ∙ ground (arith, differ))
          (attached_amount s p o.context n c d o' v at here small
            (before ∙ ap (λ k. (n + counts_on o.context k) % 2 ^ 64) (sym there)) after_it)
          (λ h. still (pooled-invoked h)) valid

    settled-IsTied : IsTied (
        if o'.session.finalized == o.session.finalized then placed else session_release_cb placed p)
    unfolding set_context
    settled-IsTied =
        if_elim IsTied (o'.session.finalized == o.session.finalized) placed
          (session_release_cb placed p) (λ _. placed-IsTied)
          (λ changed.
            let old : IsValid o.session = subst ValidAt there (v.valid p) in
            let alive : o.session.invoked ≡ false = elim (Bool-cases o.session.invoked) [
              | inl e ↦ absurd (ground (arith, old.once, valid.once, changed, e, still e))
              | inr e ↦ e
            ] in
            let over : o'.session.invoked ≡ true =
              ground (arith, old.once, valid.once, changed, alive) in
            release-IsTied placed p placed-IsTied
              (elim (Bool-cases (elem p s.pool.base.pool)) [
                | inl h ↦ absurd (ground (arith, pooled-invoked h, alive))
                | inr h ↦ h
              ])
              (ap is_live (
                  lookup-assign p p o' s.objects
                  ∙ ap (λ b. if b then some o' else lookup p s.objects) (==_refl p))
                ∙ ap not over))

  settle-IsTied :
      (s : Server S) (p : ℕ) (o : Object S) (c : LsContext) (n : ℕ) (r : After S)
      → IsTied s
      → lookup p s.objects ≡ some o
      → get_elem? s.workers_pool.lscontexts o.context ≡ some c
      → n < 2 ^ 64
      → c.ref_cnt ≡ (n + counts_on o.context (some o)) % 2 ^ 64
      → IsFine r
      → AttachedAfter n o.session.invoked r
      → TiedAfter (settle s p o r)
  unfolding settle
  settle-IsTied s p o c n (after x session) v there at small before valid (d, on, amount, still) =
      let o' : Object S = record { state = x; session = session; context = o.context } in
      subst
        (λ l. TiedAfter (elim l [
          | none ↦ failed
          | some c' ↦ handled (
              if session.finalized == o.session.finalized
              then set_context (record s { objects = assign p o' s.objects }) o.context c'
              else session_release_cb
                  (set_context (record s { objects = assign p o' s.objects }) o.context c') p)
        ]))
        (sym on) (settled-IsTied s p o o' c d n v there at refl small before amount still valid)
  settle-IsTied s p o c n bad_reception_state v there at small before valid a = tt
  settle-IsTied s p o c n crashed v there at small before valid a = tt
  settle-IsTied s p o c n hung v there at small before valid a = tt

  module _ (protocol : Protocol S) (lawful : IsLawful protocol)
      (keeps : (n : ℕ) (before : Bool) → Keeps (Attached n before) protocol) where
    event-IsTied :
        (s : Server S) (p : ℕ) (e : Event) (io_stopped : Bool) (o : Object S) (c : LsContext)
        → IsTied s
        → lookup p s.objects ≡ some o
        → get_elem? s.workers_pool.lscontexts o.context ≡ some c
        → TiedAfter (
            settle s p o (
              deliver protocol
                (e, io_stopped)
                (after o.state (record o.session { lscontext = some c }))))
    event-IsTied s p e io_stopped o c v there at =
        let count : c.ref_cnt ≡ sessions_on o.context s.objects % 2 ^ 64 =
          sym (ap (count_of ref_cnt) at) ∙ v.refs o.context in
        let old : IsValid o.session = subst ValidAt there (v.valid p) in
        let mine : counts_on o.context (some o) ≡ (if o.session.invoked then 0 else 1) =
          ground (arith, ==_refl o.context) in
        let n : ℕ = if o.session.invoked then c.ref_cnt else sub_word c.ref_cnt 1 in
        let small : n < 2 ^ 64 = ground (arith, count) in
        let before : c.ref_cnt ≡ (n + counts_on o.context (some o)) % 2 ^ 64 =
          ground (arith, count, mine) in
        let amount : c.ref_cnt ≡ (if o.session.invoked then n else add_word n 1) =
          ground (arith, count) in
        let valid : IsValid (record o.session { lscontext = some c }) = record {
          single = old.single;
          once = old.once;
          open_socket = old.open_socket;
          drained = old.drained;
        } in
        settle-IsTied s p o c n _ v there at small before
          (deliver-IsFine protocol lawful (e, io_stopped)
            (after o.state (record o.session { lscontext = some c })) valid)
          (deliver-Attached protocol io_stopped o.session.invoked n small
            (keeps n o.session.invoked) e o.state (record o.session { lscontext = some c })
            (c, refl, amount, λ h. h))

    pub session_event-IsTied :
        (s : Server S) (p : ℕ) (e : Event) (io_stopped : Bool)
        → IsTied s
        → TiedAfter (session_event protocol s p e io_stopped)
    session_event-IsTied s p e io_stopped v =
        session_event-cases TiedAfter protocol s p e io_stopped tt
          (λ o c. event-IsTied s p e io_stopped o c v)
