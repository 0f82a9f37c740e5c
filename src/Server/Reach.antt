-- ===== src/Server/Reach.antt =====
-- Every run of the server of src/server.hpp, from its constructor until it is stopped.
use lserver.Prelude.{
  ℕ, ◌≤◌, ◌≡◌, refl, ◌∙◌, ◌==◌, if_elim, if◌then◌else◌, lookup, assign, sym, subst, inl, Bool, true,
  false, none, some, List, [], ◌∷◌, arith, length, get_elem?,
}
use lserver.Config.{LsConfig}
use lserver.ContextPool
use lserver.ContextPool.{ContextPool, Outcome, Chosen}
use lserver.ContextPool.Invariant.{replace-IsValid, add_context-IsValid, deactivate_context-IsValid}
use lserver.ContextPool.Holds.{
  holds_at, holds_at-set_same, add_context-holds, deactivate_context-holds,
}
use lserver.LsContext.{LsContext}
use lserver.Pool
use lserver.Pool.{Pool}
use lserver.Session.{Session, Protocol, After, after, bad_reception_state, crashed, hung}
use lserver.Session.Callbacks.{Keeps}
use lserver.Session.Contexts.{OnAfter}
use lserver.Session.Events.{Event}
use lserver.Session.Start.{Same, IsOn, deliver-IsOn}
use lserver.Server.{
  Server, Object, Handled, handled, failed, accept_event, set_context, dispatch, session_release_cb,
}
use lserver.Server.Requests.{Called, returned, threw, call, add_context, deactivate_context}
use lserver.Server.Built.{construct, constructed}
use lserver.Server.Holds.{IsHeld, occurrences, dispatch-Accepts}
use lserver.Server.Rests.{Starts}
use lserver.Server.Construct.{construct-Starting}
use lserver.Server.Accept.{accept_event-Accepts}
use lserver.Server.Sessions.{settle, session_event}
use lserver.Server.Sessions.Cases.{session_event-cases}
use lserver.Server.Sessions.Counting.{is_live}

abbrev pub state_of {ℓ} : {S : Type ℓ} {A : Type 0} → Called S A → Server S
state_of (returned s a) = s
state_of (threw s e) = s

module _ {ℓ} {S : Type ℓ} (protocol : Protocol S) where
  -- What happens to a server that is not stopped: an accept completes, with the object that `new`
  -- makes at the address `item` if one is made, an operator adds or deactivates a context, or
  -- a read, a write or a posted handler of the session at `p` completes.
  pub data Step (s : Server S) : Server S → Type ℓ where
    accepts :
        (fresh : S × Session) (io_stopped : Bool) (item strand : ℕ) (error : Bool) (u : Server S)
        → fresh.1.outgoing_queue.q ≡ []
        → fresh.1.writes ≡ 0
        → is_live (lookup item s.objects) ≡ false
        → accept_event protocol fresh io_stopped item strand s error ≡ handled u
        → Step s u
    adds : (memory thread_cnt : ℕ) → Step s (state_of (add_context s memory thread_cnt))
    deactivates : (context_index : ℕ) → Step s (state_of (deactivate_context s context_index))
    moves :
        (p : ℕ) (e : Event) (io_stopped : Bool) (u : Server S)
        → session_event protocol s p e io_stopped ≡ handled u
        → Step s u

  pub data Reach (v : Server S) : Server S → Type ℓ where
    here : Reach v v
    next : {w u : Server S} → Reach v w → Step w u → Reach v u

  -- One accept is under way, and its context is held for it.
  abbrev pub Accepting : List ℕ → Server S → Type 0
  Accepting own s = (id : ℕ) × (s.accepting ≡ id ∷ []) × IsHeld own s (id ∷ [])

  module _ (starts : Starts protocol) (keeps : (c : LsContext) → Keeps (IsOn c) protocol)
      (own : List ℕ) where
    called-Accepting :
        {A : Type 0} (s : Server S) (r : Outcome A)
        → ContextPool.Invariant.IsValid (ContextPool.Invariant.state_of r)
        → ((i : ℕ)
            → holds_at (ContextPool.Invariant.state_of r).lscontexts i
              ≡ holds_at s.workers_pool.lscontexts i)
        → Accepting own s
        → Accepting own (state_of (call s r))
    unfolding call
    called-Accepting s (Outcome.returned p a) valid same (id, one, v) = (
      id,
      one,
      record { few = v.few; armed = v.armed; valid = valid; holds = λ i. same i ∙ v.holds i },
    )
    called-Accepting s (Outcome.threw p e) valid same (id, one, v) = (
      id,
      one,
      record { few = v.few; armed = v.armed; valid = valid; holds = λ i. same i ∙ v.holds i },
    )

    abbrev Continues : Handled S → Type 0
    Continues (handled s) = Accepting own s
    Continues failed = Unit

    settle-Accepting :
        (s : Server S) (p : ℕ) (o : Object S) (c : LsContext) (r : After S)
        → get_elem? s.workers_pool.lscontexts o.context ≡ some c
        → OnAfter (Same c) r
        → Accepting own s
        → Continues (settle s p o r)
    unfolding settle set_context session_release_cb
    settle-Accepting s p o c (after x session) at (d, on, held, active) (id, one, v) =
        let o' : Object S = record { state = x; session = session; context = o.context } in
        let s' = set_context (record s { objects = assign p o' s.objects }) o.context d in
        let valid = replace-IsValid s.workers_pool o.context c d v.valid at (inl active) in
        let same = holds_at-set_same s.workers_pool.lscontexts o.context c d at held in
        subst
          (λ l. Continues (elim l [
            | none ↦ failed
            | some c' ↦
                let t = set_context (record s { objects = assign p o' s.objects }) o.context c' in
                handled
                  (if session.finalized == o.session.finalized then t else session_release_cb t p)
          ]))
          (sym on)
          (if_elim (Accepting own) (session.finalized == o.session.finalized) s'
            (session_release_cb s' p)
            (λ _. (
              id,
              one,
              record {
                few = v.few;
                armed = v.armed;
                valid = valid;
                holds = λ k. same k ∙ v.holds k;
              },
            ))
            (λ _. (
              id,
              one,
              record {
                few = v.few;
                armed = v.armed;
                valid = valid;
                holds = λ k. same k ∙ v.holds k;
              },
            )))
    settle-Accepting s p o c bad_reception_state at on v = tt
    settle-Accepting s p o c crashed at on v = tt
    settle-Accepting s p o c hung at on v = tt

    Step-Accepting : {s u : Server S} → Step s u → Accepting own s → Accepting own u
    unfolding add_context deactivate_context
    Step-Accepting {s} {u} (accepts fresh io_stopped item strand error _ _ _ _ e) (id, one, v) =
        let (u', id', e', one', v') =
          accept_event-Accepts own protocol fresh io_stopped item strand starts s id error one v in
        subst Continues (sym e' ∙ e) (id', one', v')
    Step-Accepting {s} (adds memory n) h =
        called-Accepting s (ContextPool.add_context s.workers_pool memory n)
          (add_context-IsValid s.workers_pool memory n h.2.valid)
          (add_context-holds s.workers_pool memory n) h
    Step-Accepting {s} (deactivates index) h =
        called-Accepting s (ContextPool.deactivate_context s.workers_pool index)
          (deactivate_context-IsValid s.workers_pool index h.2.valid)
          (deactivate_context-holds s.workers_pool index) h
    Step-Accepting {s} (moves p event io_stopped _ e) h = subst Continues e (
        session_event-cases Continues protocol s p event io_stopped tt (λ o c there at.
          settle-Accepting s p o c _ at
            (deliver-IsOn protocol io_stopped c (keeps c) event o.state
              (record o.session { lscontext = some c }) (c, refl, refl, refl))
            h))

    Reach-Accepting : {s u : Server S} → Reach s u → Accepting own s → Accepting own u
    Reach-Accepting here v = v
    Reach-Accepting (next r e) v = Step-Accepting e (Reach-Accepting r v)

  module _ (starts : Starts protocol) (keeps : (c : LsContext) → Keeps (IsOn c) protocol) where
    -- When the pools of the workers, which is valid, and of the sessions are constructed, and
    -- the protocol starts a session by resetting its buffers and its callbacks change neither
    -- the holds on the context of their session nor whether it is active, the server is
    -- constructed and its first `dispatch` returns. From then on, through accepts that complete
    -- with any result, where a new session has an empty queue, no write in flight and an
    -- address at which no session is live, through contexts added and deactivated, with those
    -- calls that throw, and through the reads, writes and posted handlers of the sessions,
    -- exactly one accept is under way, and the holds on each context are those of that accept
    -- and, if the acceptor has no thread of its own, of the acceptor.
    pub Reach-holds :
        (config : LsConfig) (memory : ℕ) (items : List ℕ) (w : ContextPool) (pool : Pool)
        → ContextPool.construct config.num_workers config.max_num_workers memory
            config.num_threads_per_worker
          ≡ ContextPool.made w
        → Pool.construct config.max_session_pool_size config.eager_session_pool items ≡ Pool.ok pool
        → ContextPool.Invariant.IsValid w
        → (own : List ℕ) × (length own ≤ 1)
          × (config.separate_acceptor_thread ≡ true → own ≡ [])
          × (s : Server S) × (v : Server S) × (construct config memory items ≡ constructed s)
          × (dispatch s ≡ handled v)
          × ((u : Server S)
              → Reach v u
              → (id : ℕ) × (u.accepting ≡ id ∷ [])
                × ((i : ℕ) → holds_at u.workers_pool.lscontexts i ≡ occurrences i (id ∷ own)))
    Reach-holds config memory items w pool e e' valid =
        let (own, mine, (s, built, idle, h)) =
          construct-Starting config memory items w pool e e' valid in
        let (v, id, dispatched, one, h') = dispatch-Accepts own s idle h in
        (
          own,
          h.few,
          mine,
          s,
          v,
          built,
          dispatched,
          λ u r.
              let (id', one', h'') = Reach-Accepting starts keeps own r (id, one, h') in
              (id', one', λ i. omega (arith, h''.holds i)),
        )
