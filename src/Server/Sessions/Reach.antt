-- ===== src/Server/Sessions/Reach.antt =====
-- Every run of the server of src/server.hpp with its sessions, over a protocol that sends,
-- consumes and closes by the methods of the session alone.
use lserver.Prelude.{
  ℕ, zero, suc, Option, none, ◌∷◌, [], map, ◌^◌, ◌<◌, ◌≡◌, refl, ap, ◌∙◌, sym, subst, Bool, true,
  false, some, List, arith, elem, Distinct, length, get_elem?, lookup,
}
use lserver.Config.{LsConfig}
use lserver.ContextPool
use lserver.ContextPool.{Outcome}
use lserver.ContextPool.Counts.{count_of, add_context-counts, deactivate_context-counts}
use lserver.ContextPool.References.{ref_cnt, ref_cnt-IsCount, refs_at}
use lserver.LsContext
use lserver.LsContext.{LsContext, ContextInfo}
use lserver.Session.{Protocol}
use lserver.Session.Callbacks.{Keeps}
use lserver.Session.References.{Attached}
use lserver.Session.Writes.{IsLawful}
use lserver.Server.{Server, handled, dispatch}
use lserver.Server.Requests.{call, add_context, deactivate_context, get_server_info}
use lserver.Server.Built.{construct, constructed}
use lserver.Server.Reach.{state_of, Step, accepts, adds, deactivates, moves, Reach, here, next}
use lserver.Server.Sessions.Accepts.{accept_event-IsTied, dispatch-IsTied}
use lserver.Server.Sessions.Begin.{construct-IsTied}
use lserver.Server.Sessions.Counting.{
  is_live, counts_on, sessions_on-lookup, sessions_on, sessions_on-le,
}
use lserver.Server.Sessions.Events.{TiedAfter, session_event-IsTied}
use lserver.Server.Sessions.References.{IsTied, same-IsTied}

abbrev active_of : Option ContextInfo → ℕ
active_of none = 0
active_of (some info) = info.active_sessions_cnt

active_of_info :
    (cs : List LsContext) (i : ℕ)
    → active_of (get_elem? (map LsContext.get_context_info cs) i) ≡ refs_at cs i
unfolding LsContext.get_context_info
active_of_info [] i = refl
active_of_info (c ∷ cs) zero = refl
active_of_info (c ∷ cs) (suc i) = active_of_info cs i

module _ {ℓ} {S : Type ℓ} where
  -- The sessions of a server that have not ended, as it counts, reports and keeps them.
  pub record IsCounted (u : Server S) : Type 0 where
    pub references : (i : ℕ) → refs_at u.workers_pool.lscontexts i ≡ sessions_on i u.objects
    pub reported :
        (i : ℕ) (info : ContextInfo)
        → get_elem? (get_server_info u) i ≡ some info
        → info.active_sessions_cnt ≡ sessions_on i u.objects
    pub reusable :
        (i : ℕ) (c : LsContext)
        → get_elem? u.workers_pool.lscontexts i ≡ some c
        → LsContext.reusable c ≡ true
        → sessions_on i u.objects ≡ 0
    pub dereferenced :
        (p i : ℕ) → counts_on i (lookup p u.objects) ≡ 1 → 0 < refs_at u.workers_pool.lscontexts i
    pub pooled : (p : ℕ) → elem p u.pool.base.pool ≡ true → is_live (lookup p u.objects) ≡ false

  IsTied-IsCounted : (u : Server S) → length u.objects < 2 ^ 64 → IsTied u → IsCounted u
  unfolding LsContext.reusable get_server_info
  IsTied-IsCounted u few v =
      let exact : (i : ℕ) → refs_at u.workers_pool.lscontexts i ≡ sessions_on i u.objects =
        λ i. omega (arith, few, v.refs i, sessions_on-le i u.objects) in
      record {
        references = exact;
        reported = λ i info at.
            sym (ap active_of at) ∙ active_of_info u.workers_pool.lscontexts i ∙ exact i;
        reusable = λ i c at free.
            let count = sym (exact i) ∙ ap (count_of ref_cnt) at in ground (arith, count, free);
        dereferenced = λ p i live. omega (arith, live, exact i, sessions_on-lookup i p u.objects);
        pooled = v.ended;
      }

module _ {ℓ} {S : Type ℓ} (protocol : Protocol S) where
  module _ (lawful : IsLawful protocol)
      (keeps : (n : ℕ) (before : Bool) → Keeps (Attached n before) protocol) where
    called-IsTied :
        {A : Type 0} (s : Server S) (r : Outcome A)
        → ((i : ℕ)
            → refs_at (ContextPool.Invariant.state_of r).lscontexts i
              ≡ refs_at s.workers_pool.lscontexts i)
        → IsTied s
        → IsTied (state_of (call s r))
    unfolding call
    called-IsTied s (Outcome.returned p a) same v =
        same-IsTied s (record s { workers_pool = p }) refl refl same v
    called-IsTied s (Outcome.threw p e) same v =
        same-IsTied s (record s { workers_pool = p }) refl refl same v

    Step-IsTied : {s u : Server S} → Step protocol s u → IsTied s → IsTied u
    unfolding add_context deactivate_context
    Step-IsTied {s} (accepts fresh io_stopped item strand error _ empty idle unused e) v =
        subst TiedAfter e (
          accept_event-IsTied protocol fresh io_stopped item strand lawful keeps empty idle s error
            unused v)
    Step-IsTied {s} (adds memory n) v =
        called-IsTied s (ContextPool.add_context s.workers_pool memory n)
          (add_context-counts ref_cnt ref_cnt-IsCount s.workers_pool memory n) v
    Step-IsTied {s} (deactivates index) v =
        called-IsTied s (ContextPool.deactivate_context s.workers_pool index)
          (deactivate_context-counts ref_cnt ref_cnt-IsCount s.workers_pool index) v
    Step-IsTied {s} (moves p event io_stopped _ e) v =
        subst TiedAfter e (session_event-IsTied protocol lawful keeps s p event io_stopped v)

    Reach-IsTied : {s u : Server S} → Reach protocol s u → IsTied s → IsTied u
    Reach-IsTied here v = v
    Reach-IsTied (next r e) v = Step-IsTied e (Reach-IsTied r v)

    pub Reach-IsCounted :
        (config : LsConfig) (memory : ℕ) (items : List ℕ) (s v u : Server S)
        → Distinct items
        → construct config memory items ≡ constructed s
        → dispatch s ≡ handled v
        → Reach protocol v u
        → length u.objects < 2 ^ 64
        → IsCounted u
    Reach-IsCounted config memory items s v u distinct built dispatched r few =
        let first = construct-IsTied S config memory items s distinct built in
        IsTied-IsCounted u few
          (Reach-IsTied r (subst TiedAfter dispatched (dispatch-IsTied s first)))
