-- ===== src/ContextPool/Counts.antt =====
-- What the calls on the pool of src/io_context_pool.cpp leave of a number that each context has.
use lserver.Prelude.{
  Bool, true, ◌+◌, ℕ, zero, suc, ◌≡◌, ◌≢◌, refl, ap, ◌∙◌, sym, subst, false, Option, none, some,
  List, [], ◌∷◌, ◌++◌, if_elim, ◌==◌, ltb, if◌then◌else◌, length, get_elem?, get_elem?-set_self,
  get_elem?-set_ne, ℕ_discrete, set,
}
use lserver.LsContext
use lserver.LsContext.{LsContext}
use lserver.ContextPool.{
  Made, made, not_made, wrap, ContextPool, Chosen, chosen, out_of_range, out_of_fuel,
  get_context_round_robin, Outcome, returned, threw, threads, max_contexts, reuse_first,
  append_context, add_context, active_contexts_count, deactivate_context, add_contexts, construct,
}
use lserver.ContextPool.Invariant.{state_of}

module _ (f : LsContext → ℕ) where
  abbrev pub count_of : Option LsContext → ℕ
  count_of none = 0
  count_of (some c) = f c

  abbrev pub counts_at : List LsContext → ℕ → ℕ
  counts_at cs i = count_of (get_elem? cs i)

  pub counts_at_self :
      (cs : List LsContext) (i : ℕ) (c c' : LsContext)
      → get_elem? cs i ≡ some c
      → counts_at (set cs i c') i ≡ f c'
  counts_at_self cs i c c' e = ap count_of (get_elem?-set_self cs i c' c e)

  pub counts_at_other :
      (cs : List LsContext) (i j : ℕ) (c' : LsContext)
      → i ≢ j
      → counts_at (set cs i c') j ≡ counts_at cs j
  counts_at_other cs i j c' differ = ap count_of (get_elem?-set_ne cs i j c' differ)

  -- Other holds on no context.
  abbrev pub SameCounts : List LsContext → List LsContext → Type 0
  SameCounts cs cs' = (i : ℕ) → counts_at cs' i ≡ counts_at cs i

  pub counts_at-set_same :
      (cs : List LsContext) (i : ℕ) (c c' : LsContext)
      → get_elem? cs i ≡ some c
      → f c' ≡ f c
      → SameCounts cs (set cs i c')
  counts_at-set_same cs i c c' at same k = elim (ℕ_discrete i k) [
    | yes e ↦
        subst (λ n. counts_at (set cs i c') n ≡ counts_at cs n) e
          (counts_at_self cs i c c' at ∙ same ∙ sym (ap count_of at))
    | no differ ↦ counts_at_other cs i k c' differ
  ]

  counts_at-append : (cs : List LsContext) (c : LsContext) → f c ≡ 0 → SameCounts cs (cs ++ c ∷ [])
  counts_at-append [] c h zero = h
  counts_at-append [] c h (suc i) = refl
  counts_at-append (x ∷ cs) c h zero = refl
  counts_at-append (x ∷ cs) c h (suc i) = counts_at-append cs c h i

  abbrev SameCounts? : List LsContext → Option (List LsContext) → Type 0
  SameCounts? cs none = Unit {0}
  SameCounts? cs (some cs') = SameCounts cs cs'

  cons-SameCounts :
      (c c' : LsContext) (cs cs' : List LsContext)
      → f c' ≡ f c
      → SameCounts cs cs'
      → SameCounts (c ∷ cs) (c' ∷ cs')
  cons-SameCounts c c' cs cs' e h zero = e
  cons-SameCounts c c' cs cs' e h (suc i) = h i

  cons-SameCounts? :
      (c : LsContext) (cs : List LsContext) (o : Option (List LsContext))
      → SameCounts? cs o
      → SameCounts? (c ∷ cs) (elim o [ none ↦ none | some cs' ↦ some (c ∷ cs') ])
  cons-SameCounts? c cs none h = tt
  cons-SameCounts? c cs (some cs') h = cons-SameCounts c c cs cs' refl h

  -- The number is 0 in a new context, and what the pool does to a context leaves it.
  pub record IsCount : Type 0 where
    pub construct : (memory : ℕ) → f (LsContext.construct memory) ≡ 0
    pub runs :
        (c : LsContext) (n : ℕ) → f (LsContext.run_threads (record c { num_threads = n })) ≡ f c
    pub reuse : (c : LsContext) (n : ℕ) → f (LsContext.reuse c n) ≡ f c
    pub stop : (c : LsContext) → f (LsContext.stop c false).0 ≡ f c

  abbrev pub ZeroCounts : Made → Type 0
  ZeroCounts (made p) = (i : ℕ) → counts_at p.lscontexts i ≡ 0
  ZeroCounts (not_made e) = Unit

  module _ (laws : IsCount) where
    reuse_first-counts : (cs : List LsContext) (n : ℕ) → SameCounts? cs (reuse_first cs n)
    unfolding reuse_first
    reuse_first-counts [] n = tt
    reuse_first-counts (c ∷ cs) n =
        if_elim (SameCounts? (c ∷ cs)) (LsContext.reusable c) _ _
          (λ _. cons-SameCounts c (LsContext.reuse c n) cs cs (laws.reuse c n) (λ i. refl))
          (λ _. cons-SameCounts? c cs (reuse_first cs n) (reuse_first-counts cs n))

    append_context-counts :
        (p : ContextPool) (memory n : ℕ)
        → SameCounts p.lscontexts (state_of (append_context p memory n)).lscontexts
    unfolding append_context LsContext.set_num_threads
    append_context-counts p memory n =
        if_elim P (ltb n 1) (LsContext.invalid LsContext.no_threads) _
          (λ _. counts_at-append p.lscontexts c (laws.construct memory))
          (λ _.
            if_elim P (ltb 64 n) (LsContext.invalid LsContext.too_many_threads) _
              (λ _. counts_at-append p.lscontexts c (laws.construct memory))
              (λ _.
                counts_at-append p.lscontexts (LsContext.run_threads (record c { num_threads = n }))
                  (laws.runs c n ∙ laws.construct memory)))
      where
        c : LsContext
        c = LsContext.construct memory

        P : LsContext.Checked → Type 0
        P r =
            SameCounts p.lscontexts
              (state_of {A = Unit {0}} (elim r [
                | LsContext.valid c ↦
                    returned
                      (record p { lscontexts = p.lscontexts ++ LsContext.run_threads c ∷ [] }) tt
                | LsContext.invalid e ↦
                    threw
                      (record p { lscontexts = p.lscontexts ++ LsContext.construct memory ∷ [] })
                      (threads e)
              ])).lscontexts

    pub add_context-counts :
        (p : ContextPool) (memory n : ℕ)
        → SameCounts p.lscontexts (state_of (add_context p memory n)).lscontexts
    unfolding add_context
    add_context-counts p memory n =
        go (reuse_first p.lscontexts n) (reuse_first-counts p.lscontexts n)
      where
        go :
            (o : Option (List LsContext))
            → SameCounts? p.lscontexts o
            → SameCounts p.lscontexts
                (state_of {A = Unit {0}} (elim o [
                  | some cs ↦ returned (record p { lscontexts = cs }) tt
                  | none ↦
                      if length p.lscontexts == p.capacity
                      then threw p max_contexts
                      else append_context p memory n
                ])).lscontexts
        go (some cs) h = h
        go none h =
            if_elim (λ (r : Outcome (Unit {0})). SameCounts p.lscontexts (state_of r).lscontexts)
              (length p.lscontexts == p.capacity) _ _ (λ _. λ i. refl)
              (λ _. append_context-counts p memory n)

    pub deactivate_context-counts :
        (p : ContextPool) (index : ℕ)
        → SameCounts p.lscontexts (state_of (deactivate_context p index)).lscontexts
    unfolding deactivate_context
    deactivate_context-counts p index = go (get_elem? p.lscontexts index) refl
      where
        Same : Outcome ℕ → Type 0
        Same r = SameCounts p.lscontexts (state_of r).lscontexts

        go :
            (o : Option LsContext)
            → get_elem? p.lscontexts index ≡ o
            → SameCounts p.lscontexts (state_of (deactivate_context p index)).lscontexts
        go none e = unfold deactivate_context in rw (e, deactivate_context) (λ i. refl)
        go (some c) e =
            unfold deactivate_context in
            rw (e, deactivate_context)
              (if_elim Same c.active _ _
                (λ _.
                  if_elim Same (ltb (active_contexts_count p) 2) _ _ (λ _. λ i. refl)
                    (λ _.
                      counts_at-set_same p.lscontexts index c (LsContext.stop c false).0 e
                        (laws.stop c)))
                (λ _. λ i. refl))

    add_contexts-counts :
        (p : ContextPool) (count memory n : ℕ)
        → SameCounts p.lscontexts (state_of (add_contexts p count memory n)).lscontexts
    unfolding add_contexts
    add_contexts-counts p zero memory n = λ i. refl
    add_contexts-counts p (suc count) memory n =
        go (add_context p memory n) (add_context-counts p memory n)
          (λ q. add_contexts-counts q count memory n)
      where
        go :
            (r : Outcome (Unit {0}))
            → SameCounts p.lscontexts (state_of r).lscontexts
            → ((q : ContextPool)
                → SameCounts q.lscontexts (state_of (add_contexts q count memory n)).lscontexts)
            → SameCounts p.lscontexts
                (state_of {A = Unit {0}} (elim r [
                  | returned q _ ↦ add_contexts q count memory n
                  | threw q e ↦ threw q e
                ])).lscontexts
        go (returned q u) h rest = λ i. rest q i ∙ h i
        go (threw q e) h rest = h

    pub construct-counts :
        (size max_size memory n : ℕ) → ZeroCounts (construct size max_size memory n)
    unfolding construct
    construct-counts size max_size memory n =
        go (add_contexts reserved size memory n) (add_contexts-counts reserved size memory n)
      where
        reserved : ContextPool
        reserved = record { lscontexts = []; capacity = max_size; next_context = memory }

        go :
            (r : Outcome (Unit {0}))
            → SameCounts [] (state_of r).lscontexts
            → ZeroCounts (elim r [
              | returned p _ ↦ made (record p { next_context = 0 })
              | threw p e ↦ not_made e
            ])
        go (returned p u) h = h
        go (threw p e) h = tt

  abbrev pub SameChosen : ContextPool → Chosen → Type 0
  SameChosen p (chosen q id) = SameCounts p.lscontexts q.lscontexts
  SameChosen p out_of_range = Unit
  SameChosen p out_of_fuel = Unit

  -- Handing a context out may change the number by the new hold alone.
  pub get_context_round_robin-counts :
      ((c : LsContext) → f (LsContext.hold c) ≡ f c)
      → (fuel : ℕ) (p : ContextPool) → SameChosen p (get_context_round_robin fuel p)
  unfolding get_context_round_robin
  get_context_round_robin-counts holds zero p = tt
  get_context_round_robin-counts holds (suc fuel) p =
      go (get_elem? p.lscontexts p.next_context) refl
        (get_context_round_robin-counts holds fuel next)
    where
      next : ContextPool
      next = record p { next_context = wrap (length p.lscontexts) (p.next_context + 1) }

      go :
          (o : Option LsContext)
          → get_elem? p.lscontexts p.next_context ≡ o
          → SameChosen p (get_context_round_robin fuel next)
          → SameChosen p (elim o [
            | none ↦ out_of_range
            | some c ↦ elim c.active [
              | true ↦
                  chosen
                    (record next {
                      lscontexts = set p.lscontexts p.next_context (LsContext.hold c);
                    })
                    p.next_context
              | false ↦ get_context_round_robin fuel next
            ]
          ])
      go none e later = tt
      go (some c) e later = by_activity c.active
        where
          by_activity :
              (active : Bool)
              → SameChosen p (elim active [
                | true ↦
                    chosen
                      (record next {
                        lscontexts = set p.lscontexts p.next_context (LsContext.hold c);
                      })
                      p.next_context
                | false ↦ get_context_round_robin fuel next
              ])
          by_activity true =
              counts_at-set_same p.lscontexts p.next_context c (LsContext.hold c) e (holds c)
          by_activity false = later
