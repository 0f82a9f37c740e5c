-- ===== src/Server/Sessions/Starts.antt =====
-- The start of a session of src/server.hpp on a context that is there.
use lserver.Prelude.{
  ℕ, ◌+◌, ◌^◌, ◌%◌, ◌<◌, ◌≡◌, refl, ap, ◌∙◌, sym, subst, Bool, true, false, not, Option, none, some,
  [], arith, ◌==◌, ==_refl, if◌then◌else◌, if_elim, add_word, elem, is_empty, get_elem?, lookup,
  assign, lookup-assign,
}
use lserver.ContextPool.Counts.{count_of}
use lserver.ContextPool.References.{ref_cnt}
use lserver.LsContext.{LsContext}
use lserver.Session
use lserver.Session.{Session, Protocol, After, after, bad_reception_state, crashed, hung}
use lserver.Session.Callbacks.{Keeps}
use lserver.Session.Handlers.{setup-IsValid, session_start-IsFine}
use lserver.Session.Writes.{IsValid, IsFine, IsLawful}
use lserver.Session.References.{Attached, AttachedAfter, setup-Attached, session_start-Attached}
use lserver.Server.{
  Server, Object, handled, failed, set_context, session_release_cb, object, accept, started,
  start_session,
}
use lserver.Server.Sessions.Counting.{is_live, counts_on, sessions_on}
use lserver.Server.Sessions.References.{
  IsTied, ValidAt, same-IsTied, place-IsTied, release-IsTied, attached_amount,
}
use lserver.Server.Sessions.Events.{TiedAfter}

module _ {ℓ} {S : Type ℓ} where
  dead-counts_on : (i : ℕ) (o : Option (Object S)) → is_live o ≡ false → counts_on i o ≡ 0
  dead-counts_on i none h = refl
  dead-counts_on i (some o) h = ground (arith, h)

  module _ (protocol : Protocol S) (fresh : S × Session) (io_stopped : Bool) (item strand : ℕ)
      (lawful : IsLawful protocol)
      (keeps : (n : ℕ) (before : Bool) → Keeps (Attached n before) protocol)
      (empty : fresh.1.outgoing_queue.q ≡ []) (idle : fresh.1.writes ≡ 0) where
    accept-IsTied :
        (s : Server S) (id p : ℕ) (x : S) (session : Session) (c d : LsContext)
        → IsTied s
        → get_elem? s.workers_pool.lscontexts id ≡ some c
        → elem p s.pool.base.pool ≡ false
        → is_live (lookup p s.objects) ≡ false
        → IsValid session
        → d.ref_cnt ≡ (if session.invoked then c.ref_cnt else add_word c.ref_cnt 1)
        → IsTied (accept protocol fresh io_stopped item strand s id p (x, session) d)
    unfolding accept set_context session_release_cb
    accept-IsTied s id p x session c d v at away dead valid amount =
        let o : Object S = record { state = x; session = session; context = id } in
        let count : c.ref_cnt ≡ sessions_on id s.objects % 2 ^ 64 =
          sym (ap (count_of ref_cnt) at) ∙ v.refs id in
        let small : c.ref_cnt < 2 ^ 64 = omega (arith, count) in
        let none_yet = dead-counts_on id (lookup p s.objects) dead in
        let before : c.ref_cnt ≡ (c.ref_cnt + counts_on id (lookup p s.objects)) % 2 ^ 64 =
          omega (arith, small, none_yet) in
        let w : IsTied (set_context (record s { objects = assign p o s.objects }) id d) =
          place-IsTied s p id c d o v at refl
            (λ i differ. dead-counts_on i (lookup p s.objects) dead)
            (attached_amount s p id c.ref_cnt c d o v at refl small before amount)
            (λ h. absurd (ground (arith, h, away))) valid in
        let t = set_context (record s { objects = assign p o s.objects }) id d in
        let over : session.finalized == 0 ≡ false → session.invoked ≡ true =
          (λ ended. ground (arith, ended, valid.once)) in
        let counted : IsTied (if session.finalized == 0 then t else session_release_cb t p) =
          if_elim IsTied (session.finalized == 0) t (session_release_cb t p) (λ _. w)
            (λ ended. release-IsTied t p w away (
              ap is_live (
                lookup-assign p p o s.objects
                ∙ ap (λ b. if b then some o else lookup p s.objects) (==_refl p))
              ∙ ap not (over ended))) in
        same-IsTied (if session.finalized == 0 then t else session_release_cb t p) _ refl refl
          (λ i. refl) counted

    started-IsTied :
        (s : Server S) (id p : ℕ) (c : LsContext) (r : After S)
        → IsTied s
        → get_elem? s.workers_pool.lscontexts id ≡ some c
        → elem p s.pool.base.pool ≡ false
        → is_live (lookup p s.objects) ≡ false
        → IsFine r
        → AttachedAfter c.ref_cnt false r
        → TiedAfter (started protocol fresh io_stopped item strand s id p r)
    unfolding started
    started-IsTied s id p c (after x session) v at away dead valid (d, on, amount, still) =
        subst
          (λ l. TiedAfter (elim l [
            | none ↦ failed
            | some c' ↦
                handled (accept protocol fresh io_stopped item strand s id p (x, session) c')
          ]))
          (sym on) (accept-IsTied s id p x session c d v at away dead valid amount)
    started-IsTied s id p c bad_reception_state v at away dead valid a = tt
    started-IsTied s id p c crashed v at away dead valid a = tt
    started-IsTied s id p c hung v at away dead valid a = tt

    -- A session that is not live has nothing to write, and no write is in flight.
    abbrev IsIdle : S × Session → Type 0
    IsIdle o = (o.1.outgoing_queue.q ≡ []) × (o.1.writes ≡ 0)

    object-IsIdle :
        (s : Server S) (p : ℕ)
        → IsTied s
        → is_live (lookup p s.objects) ≡ false
        → IsIdle (object protocol fresh io_stopped item strand s p)
    unfolding object
    object-IsIdle s p v dead = go (lookup p s.objects) dead (v.valid p)
      where
        go :
            (found : Option (Object S))
            → is_live found ≡ false
            → ValidAt found
            → IsIdle (elim found [ none ↦ fresh | some o ↦ (o.state, o.session) ])
        go none dead valid = (empty, idle)
        go (some o) dead valid =
            let drained = valid.drained (ground (arith, dead)) in
            (drained, valid.single ∙ ap (λ q. if is_empty q then 0 else 1) drained)

    pub start_session-IsTied :
        (s : Server S) (id p : ℕ)
        → IsTied s
        → elem p s.pool.base.pool ≡ false
        → is_live (lookup p s.objects) ≡ false
        → TiedAfter (start_session protocol fresh io_stopped item strand s id p)
    unfolding start_session
    start_session-IsTied s id p v away dead = go (get_elem? s.workers_pool.lscontexts id) refl
      where
        go :
            (found : Option LsContext)
            → get_elem? s.workers_pool.lscontexts id ≡ found
            → TiedAfter (elim found [
              | none ↦ failed
              | some c ↦
                  let (x, session) = object protocol fresh io_stopped item strand s p in
                  started protocol fresh io_stopped item strand s id p
                    (Session.session_start protocol io_stopped x (Session.setup session c strand))
            ])
        go none at = tt
        go (some c) at =
            let (x, session) = object protocol fresh io_stopped item strand s p in
            let (drained, quiet) = object-IsIdle s p v dead in
            let count : c.ref_cnt ≡ sessions_on id s.objects % 2 ^ 64 =
              sym (ap (count_of ref_cnt) at) ∙ v.refs id in
            started-IsTied s id p c _ v at away dead
              (session_start-IsFine protocol lawful io_stopped x (Session.setup session c strand)
                (setup-IsValid session c strand drained quiet))
              (session_start-Attached protocol io_stopped false c.ref_cnt (omega (arith, count))
                (keeps c.ref_cnt false) x (Session.setup session c strand)
                (setup-Attached session c strand))
