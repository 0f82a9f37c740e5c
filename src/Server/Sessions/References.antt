-- ===== src/Server/Sessions/References.antt =====
-- A server of src/server.hpp and its sessions: each counts once on its context until it ends, and only
-- sessions that have ended are in the pool.
use lserver.Prelude.{
  ℕ, ◌+◌, ◌^◌, ◌%◌, ◌<◌, ◌≡◌, ◌≢◌, ap, ◌∙◌, sym, subst, inl, inr, true, false, not, Option, none,
  some, ◌∷◌, arith, ◌==◌, ==_iff, if◌then◌else◌, if_elim, add_word, Bool-cases, elem, Distinct,
  get_elem?, set, lookup, assign, lookup-assign, ℕ_discrete,
}
use lserver.ContextPool.Counts.{count_of, counts_at_self, counts_at_other}
use lserver.ContextPool.References.{ref_cnt, refs_at}
use lserver.LsContext.{LsContext}
use lserver.Pool.Stack.{put_back-pool}
use lserver.Session.Writes.{IsValid}
use lserver.SessionPool
use lserver.Server.{Server, Object, set_context, session_release_cb}
use lserver.Server.Sessions.Counting.{is_live, counts_on, sessions_on, sessions_on-assign}

module _ {ℓ} {S : Type ℓ} where
  abbrev pub ValidAt : Option (Object S) → Type 0
  ValidAt none = Unit
  ValidAt (some o) = IsValid o.session

  pub record IsTied (s : Server S) : Type 0 where
    pub distinct : Distinct s.pool.base.pool
    pub idle : s.pool.base.callback_active ≡ false
    pub ended : (p : ℕ) → elem p s.pool.base.pool ≡ true → is_live (lookup p s.objects) ≡ false
    pub refs : (i : ℕ) → refs_at s.workers_pool.lscontexts i ≡ sessions_on i s.objects % 2 ^ 64
    pub valid : (p : ℕ) → ValidAt (lookup p s.objects)

  -- The trigger, the socket, the accepts and the holds have no part in it.
  pub same-IsTied :
      (s u : Server S)
      → s.pool.base ≡ u.pool.base
      → s.objects ≡ u.objects
      → ((i : ℕ) → refs_at u.workers_pool.lscontexts i ≡ refs_at s.workers_pool.lscontexts i)
      → IsTied s
      → IsTied u
  same-IsTied s u base objects same v = record {
    distinct = subst (λ b. Distinct b.pool) base v.distinct;
    idle = subst (λ b. b.callback_active ≡ false) base v.idle;
    ended = λ p h.
        subst (λ m. is_live (lookup p m) ≡ false) objects
          (v.ended p (ap (λ b. elem p b.pool) base ∙ h));
    refs = λ i. same i ∙ v.refs i ∙ ap (λ m. sessions_on i m % 2 ^ 64) objects;
    valid = λ p. subst (λ m. ValidAt (lookup p m)) objects (v.valid p);
  }

  -- An object is written, together with its context.
  pub place-IsTied :
      (s : Server S) (p id : ℕ) (c d : LsContext) (o : Object S)
      → IsTied s
      → get_elem? s.workers_pool.lscontexts id ≡ some c
      → o.context ≡ id
      → ((i : ℕ) → id ≢ i → counts_on i (lookup p s.objects) ≡ 0)
      → d.ref_cnt ≡ sessions_on id (assign p o s.objects) % 2 ^ 64
      → (elem p s.pool.base.pool ≡ true → o.session.invoked ≡ true)
      → IsValid o.session
      → IsTied (set_context (record s { objects = assign p o s.objects }) id d)
  unfolding set_context
  place-IsTied s p id c d o v at here others amount over valid = record {
    distinct = v.distinct;
    idle = v.idle;
    ended = λ q h.
        ap is_live (lookup-assign p q o s.objects)
        ∙ if_elim (λ (x : Option (Object S)). is_live x ≡ false) (p == q) (some o)
            (lookup q s.objects)
            (λ e.
              let same : p ≡ q = (==_iff p q).0 e in
              ap not (over (ap (λ n. elem n s.pool.base.pool) same ∙ h)))
            (λ _. v.ended q h);
    refs = λ i. elim (ℕ_discrete id i) [
      | yes same ↦
          subst
            (λ n.
              refs_at (set s.workers_pool.lscontexts id d) n
              ≡ sessions_on n (assign p o s.objects) % 2 ^ 64)
            same (counts_at_self ref_cnt s.workers_pool.lscontexts id c d at ∙ amount)
      | no differ ↦
          let elsewhere : counts_on i (some o) ≡ 0 = ground (arith, here, differ) in
          let same : sessions_on i (assign p o s.objects) ≡ sessions_on i s.objects =
            omega (arith, sessions_on-assign i p o s.objects, others i differ, elsewhere) in
          counts_at_other ref_cnt s.workers_pool.lscontexts id i d differ
          ∙ v.refs i
          ∙ ap (λ n. n % 2 ^ 64) (sym same)
    ];
    valid = λ q.
        subst ValidAt (sym (lookup-assign p q o s.objects))
          (if_elim ValidAt (p == q) (some o) (lookup q s.objects) (λ _. valid) (λ _. v.valid q));
  }

  pub release-IsTied :
      (s : Server S) (p : ℕ)
      → IsTied s
      → elem p s.pool.base.pool ≡ false
      → is_live (lookup p s.objects) ≡ false
      → IsTied (session_release_cb s p)
  unfolding session_release_cb SessionPool.put_back
  release-IsTied s p v away dead =
      let (stack, idle) = put_back-pool s.pool.base p v.idle in
      record {
        distinct = subst Distinct (sym stack) (away, v.distinct);
        idle = idle;
        ended = λ q h.
            let h' : elem q (p ∷ s.pool.base.pool) ≡ true = sym (ap (elem q) stack) ∙ h in
            elim (Bool-cases (p == q)) [
              | inl e ↦ subst (λ n. is_live (lookup n s.objects) ≡ false) ((==_iff p q).0 e) dead
              | inr e ↦ v.ended q (unfold elem in ground (arith, h', e))
            ];
        refs = v.refs;
        valid = v.valid;
      }

  -- The references that a session leaves are those of all sessions.
  pub attached_amount :
      (s : Server S) (p id n : ℕ) (c d : LsContext) (o : Object S)
      → IsTied s
      → get_elem? s.workers_pool.lscontexts id ≡ some c
      → o.context ≡ id
      → n < 2 ^ 64
      → c.ref_cnt ≡ (n + counts_on id (lookup p s.objects)) % 2 ^ 64
      → d.ref_cnt ≡ (if o.session.invoked then n else add_word n 1)
      → d.ref_cnt ≡ sessions_on id (assign p o s.objects) % 2 ^ 64
  attached_amount s p id n c d o v at here small before after =
      let total : c.ref_cnt ≡ sessions_on id s.objects % 2 ^ 64 =
        sym (ap (count_of ref_cnt) at) ∙ v.refs id in
      let mine : counts_on id (some o) ≡ (if o.session.invoked then 0 else 1) =
        ground (arith, here) in
      let now : d.ref_cnt ≡ (n + counts_on id (some o)) % 2 ^ 64 =
        ground (arith, small, after, mine) in
      omega (arith, now, total, before, sessions_on-assign id p o s.objects)
