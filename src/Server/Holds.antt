-- ===== src/Server/Holds.antt =====
-- Which contexts the server of src/server.hpp holds, and that it goes on accepting.
use lserver.Prelude.{
  ℕ, ◌+◌, ◌≤◌, ◌≡◌, ◌≢◌, refl, ap, ◌∙◌, subst, inl, true, false, Option, none, some, List, [], ◌∷◌,
  ◌++◌, arith, if_elim, ◌==◌, if◌then◌else◌, length, ℕ_discrete, get_elem?, set, sub_word,
}
use lserver.ContextPool
use lserver.ContextPool.{ContextPool, Chosen}
use lserver.ContextPool.Invariant.{replace-IsValid, round-Keeps, Keeps}
use lserver.ContextPool.RoundRobin.{active_at, hold_at, position}
use lserver.ContextPool.Holds.{holds_of, holds_at, holds_at_self, holds_at_other}
use lserver.ContextPool.Reconfigure.{get_context_round_robin_returns}
use lserver.LsContext
use lserver.LsContext.{LsContext}
use lserver.TriggerGuard
use lserver.TriggerGuard.{TriggerGuard}
use lserver.Server.{Server, Handled, handled, register, dispatch_to, dispatch, set_context}

abbrev pub occurrences : ℕ → List ℕ → ℕ
occurrences i [] = 0
occurrences i (j ∷ js) = (if j == i then 1 else 0) + occurrences i js

occurrences-le : (i : ℕ) (js : List ℕ) → occurrences i js ≤ length js
occurrences-le i [] = omega arith
occurrences-le i (j ∷ js) = ground (arith, occurrences-le i js)

-- Not shut down, the server holds the contexts `ids` for an accept, and `own` for its acceptor, if
-- that has no thread of its own.
pub record IsHeld {ℓ} {S : Type ℓ} (own : List ℕ) (s : Server S) (ids : List ℕ) : Type 0 where
  pub few : length own ≤ 1
  pub armed : s.shutdown_guard.triggered ≡ false
  pub valid : ContextPool.Invariant.IsValid s.workers_pool
  pub holds : (i : ℕ) → holds_at s.workers_pool.lscontexts i ≡ occurrences i ids + occurrences i own

pub acquire-armed :
    (t : TriggerGuard)
    → t.triggered ≡ false
    → (TriggerGuard.acquire_scoped_guard t).0.triggered ≡ false
unfolding TriggerGuard.acquire_scoped_guard
acquire-armed t h = ground arith

pub destroy-triggered :
    (g : TriggerGuard.ScopedGuard) (t : TriggerGuard)
    → (TriggerGuard.destroy g t).triggered ≡ t.triggered
unfolding TriggerGuard.destroy
destroy-triggered g t =
    if_elim (λ (u : TriggerGuard). u.triggered ≡ t.triggered) g.triggered _ _ (λ _. refl)
      (λ _. refl)

recount :
    (p : ContextPool) (i k : ℕ) (c c' : LsContext) (ids ids' own : List ℕ)
    → get_elem? p.lscontexts i ≡ some c
    → ((j : ℕ) → holds_at p.lscontexts j ≡ occurrences j ids + occurrences j own)
    → c'.hold_cnt + occurrences i ids ≡ c.hold_cnt + occurrences i ids'
    → ((j : ℕ) → i ≢ j → occurrences j ids ≡ occurrences j ids')
    → holds_at (set p.lscontexts i c') k ≡ occurrences k ids' + occurrences k own
recount p i k c c' ids ids' own at h e others =
    let hc : holds_at p.lscontexts i ≡ c.hold_cnt = ap holds_of at in
    elim (ℕ_discrete i k) [
      | yes same ↦
          subst (λ n. holds_at (set p.lscontexts i c') n ≡ occurrences n ids' + occurrences n own)
            same (omega (arith, holds_at_self p.lscontexts i c c' at, hc, h i, e))
      | no differ ↦
          holds_at_other p.lscontexts i k c' differ
          ∙ h k
          ∙ ap (λ n. n + occurrences k own) (others k differ)
    ]

module _ {ℓ} {S : Type ℓ} (own : List ℕ) where
  -- One hold less, of a context that has one for an accept.
  pub set_context-IsHeld :
      (s : Server S) (id : ℕ) (c c' : LsContext)
      → IsHeld own s (id ∷ [])
      → get_elem? s.workers_pool.lscontexts id ≡ some c
      → c'.hold_cnt ≡ sub_word c.hold_cnt 1
      → c'.active ≡ c.active
      → IsHeld own (set_context s id c') []
  unfolding set_context
  set_context-IsHeld s id c c' v at less same = record {
    few = v.few;
    armed = v.armed;
    valid = replace-IsValid s.workers_pool id c c' v.valid at (inl same);
    holds = λ k.
        recount s.workers_pool id k c c' (id ∷ []) [] own at v.holds
          (ground (arith, less, v.holds id, ap holds_of at, v.few, occurrences-le id own))
          (λ j differ. ground arith);
  }

  hold_at-holds :
      (s : Server S) (j id : ℕ) (o : Option LsContext)
      → IsHeld own s []
      → get_elem? s.workers_pool.lscontexts id ≡ o
      → active_at s.workers_pool.lscontexts id ≡ true
      → holds_at (hold_at s.workers_pool.lscontexts id) j
        ≡ occurrences j (id ∷ []) + occurrences j own
  unfolding LsContext.hold
  hold_at-holds s j id none v e on = absurd (ground (arith, e, on))
  hold_at-holds s j id (some c) v e on =
      let held : hold_at s.workers_pool.lscontexts id
          ≡ set s.workers_pool.lscontexts id (LsContext.hold c) =
        ap
          (λ o. elim o [
            | none ↦ s.workers_pool.lscontexts
            | some d ↦ set s.workers_pool.lscontexts id (LsContext.hold d)
          ])
          e in
      ap (λ cs. holds_at cs j) held
      ∙ recount s.workers_pool id j c (LsContext.hold c) [] (id ∷ []) own e v.holds
          (ground (arith, v.holds id, ap holds_of e, v.few, occurrences-le id own))
          (λ k differ. ground arith)

  -- `get_context_round_robin` hands out a context, with one more hold.
  pub take_context :
      (s : Server S)
      → IsHeld own s []
      → (q : ContextPool) × (id : ℕ) × (ContextPool.get_context_round_robin
            (length s.workers_pool.lscontexts)
            s.workers_pool
          ≡ Chosen.chosen q id)
        × IsHeld own (record s { workers_pool = q }) (id ∷ [])
  take_context s v =
      let p = s.workers_pool in
      let (k, serves) = get_context_round_robin_returns p v.valid in
      let id = position (length p.lscontexts) p.next_context k in
      (
        _,
        id,
        serves.result,
        record {
          few = v.few;
          armed = v.armed;
          valid = subst Keeps serves.result (round-Keeps (length p.lscontexts) p v.valid);
          holds = λ j. hold_at-holds s j id (get_elem? p.lscontexts id) v refl serves.active;
        },
      )

  -- The call has returned, with an accept registered on a context that is held for it.
  abbrev pub Accepts : Handled S → Type ℓ
  Accepts r =
      (u : Server S) × (id : ℕ) × (r ≡ handled u) × (u.accepting ≡ id ∷ []) × IsHeld own u (id ∷ [])

  register-IsHeld :
      (s : Server S) (id : ℕ)
      → s.accepting ≡ []
      → IsHeld own s (id ∷ [])
      → Accepts (handled (register s id))
  unfolding register
  register-IsHeld s id none_yet v =
      let (t, g) = TriggerGuard.acquire_scoped_guard s.shutdown_guard in
      let off = acquire-armed s.shutdown_guard v.armed in
      let u : Server S = record s {
        socket = some id;
        shutdown_guard = TriggerGuard.destroy g t;
        accepting = s.accepting ++ id ∷ [];
      } in
      (
        u,
        id,
        if_elim (λ (r : Server S). handled r ≡ handled u) t.triggered _ u
            (λ on. absurd (ground (arith, on, off))) (λ _. refl),
        ap (λ ids. ids ++ id ∷ []) none_yet,
        record {
          few = v.few;
          armed = destroy-triggered g t ∙ off;
          valid = v.valid;
          holds = v.holds;
        },
      )

  pub dispatch-Accepts : (s : Server S) → s.accepting ≡ [] → IsHeld own s [] → Accepts (dispatch s)
  unfolding dispatch dispatch_to
  dispatch-Accepts s none_yet v =
      let (q, id, e, w) = take_context s v in
      let (u, id', e', a, w') = register-IsHeld (record s { workers_pool = q }) id none_yet w in
      (u, id', ap (dispatch_to s) e ∙ e', a, w')
