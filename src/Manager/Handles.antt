-- ===== src/Manager/Handles.antt =====
-- The handles that the manager of src/manager.cpp gives out.
use lserver.Prelude.{
  ℕ, suc, ◌+◌, ◌<◌, ◌≡◌, inl, inr, refl, ap, ◌∙◌, sym, subst, Bool, true, false, Option, none, some,
  [], ◌∷◌, arith, ltb, if_elim, if◌then◌else◌, ◌==◌, length, Map, lookup, emplace, lookup-assign,
  lookup-emplace, length-assign, length-emplace, Option-cases, ==_refl,
}
use lserver.Server
use lserver.Server.Requests
use lserver.Server.{Server, Handled, handled, failed, Stopped, stopped, stop_waits, stop_threw}
use lserver.Server.Requests.{Called}
use lserver.Manager.{
  ServerManager, Managed, done, threw, blocked, null, validate_server_handle, found, get_server,
  put_server, dispatched, insert_server, stop_result, stop_servers, stop_all, each_server, wait,
  get_stats, called,
}

abbrev is_some {ℓ} : {A : Type ℓ} → Option A → Bool
is_some none = false
is_some (some a) = true

module _ {ℓ} {S : Type ℓ} where
  -- The handles are the numbers below `handle_id_`, and each has its server.
  pub record IsNumbered (m : ServerManager S) : Type 0 where
    pub counted : length m.servers ≡ m.handle_id
    pub known : (sh : ℕ) → is_some (lookup sh m.servers) ≡ ltb sh m.handle_id

  -- A call keeps the handles, if it returns, and follows no null pointer.
  abbrev pub Keeps : {A : Type 0} → Managed S A → Type 0
  Keeps (done m a) = IsNumbered m
  Keeps (threw m) = IsNumbered m
  Keeps blocked = Unit
  Keeps null = ⊥

  put_server-IsNumbered :
      (m : ServerManager S) (sh : ℕ) (s t : Server S)
      → lookup sh m.servers ≡ some s
      → IsNumbered m
      → IsNumbered (put_server m sh t)
  unfolding put_server
  put_server-IsNumbered m sh s t at v = record {
    counted = length-assign sh t s m.servers at ∙ v.counted;
    known = λ k.
        ap is_some (lookup-assign sh k t m.servers)
        ∙ if_elim (λ (o : Option (Server S)). is_some o ≡ ltb k m.handle_id) (sh == k) _ _
            (λ e. ground (arith, e, ap is_some at, v.known sh)) (λ _. v.known k);
  }

  pub found-cases :
      (m : ServerManager S) (sh : ℕ)
      → IsNumbered m
      → validate_server_handle m sh ≡ true
      → (s : Server S) × (lookup sh m.servers ≡ some s)
  unfolding validate_server_handle
  found-cases m sh v ok = elim (Option-cases (lookup sh m.servers)) [
    | inl missing ↦ absurd (ground (arith, ok, v.counted, v.known sh, ap is_some missing))
    | inr there ↦ there
  ]

  pub get_server-Keeps :
      {A : Type 0} (m : ServerManager S) (sh : ℕ) (k : Server S → Managed S A)
      → IsNumbered m
      → ((s : Server S) → lookup sh m.servers ≡ some s → Keeps (k s))
      → Keeps (get_server m sh k)
  unfolding get_server found
  get_server-Keeps m sh k v h =
      if_elim Keeps (validate_server_handle m sh) _ _
        (λ ok.
          let (s, at) = found-cases m sh v ok in subst (λ o. Keeps (found m o k)) (sym at) (h s at))
        (λ _. v)

  pub called-Keeps :
      {A : Type 0} (m : ServerManager S) (sh : ℕ) (s : Server S) (r : Called S A)
      → lookup sh m.servers ≡ some s
      → IsNumbered m
      → Keeps (called m sh r)
  unfolding called
  called-Keeps m sh s (Requests.returned t a) at v = put_server-IsNumbered m sh s t at v
  called-Keeps m sh s (Requests.threw t e) at v = put_server-IsNumbered m sh s t at v

  pub stop_result-Keeps :
      (m : ServerManager S) (sh : ℕ) (s : Server S) (r : Stopped S)
      → lookup sh m.servers ≡ some s
      → IsNumbered m
      → Keeps (stop_result m sh r)
  unfolding stop_result
  stop_result-Keeps m sh s (stopped t) at v = put_server-IsNumbered m sh s t at v
  stop_result-Keeps m sh s stop_waits at v = tt
  stop_result-Keeps m sh s stop_threw at v = v

  dispatched-Keeps :
      (m : ServerManager S) (sh : ℕ) (s : Server S) (r : Handled S)
      → lookup sh m.servers ≡ some s
      → IsNumbered m
      → Keeps (dispatched m sh r)
  unfolding dispatched
  dispatched-Keeps m sh s (handled t) at v = put_server-IsNumbered m sh s t at v
  dispatched-Keeps m sh s failed at v = v

  pub insert_server-Keeps :
      (m : ServerManager S) (s : Server S) → IsNumbered m → Keeps (insert_server m s)
  unfolding insert_server
  insert_server-Keeps m s v = go (lookup m.handle_id m.servers) refl
    where
      go :
          (o : Option (Server S))
          → lookup m.handle_id m.servers ≡ o
          → Keeps {A = ℕ} (elim o [
            | some other ↦ threw (record m { handle_id = m.handle_id + 1 })
            | none ↦
                dispatched
                  (record m {
                    handle_id = m.handle_id + 1;
                    servers = emplace m.handle_id s m.servers;
                  })
                  m.handle_id
                  (Server.dispatch s)
          ])
      go (some other) e = absurd (ground (arith, ap is_some e, v.known m.handle_id))
      go none e =
          dispatched-Keeps _ m.handle_id s (Server.dispatch s)
            (lookup-emplace m.handle_id m.handle_id s m.servers e
              ∙ ap (λ b. if b then some s else lookup m.handle_id m.servers) (==_refl m.handle_id))
            (record {
              counted = length-emplace m.handle_id s m.servers e ∙ ap (λ n. n + 1) v.counted;
              known = λ k.
                  ap is_some (lookup-emplace m.handle_id k s m.servers e)
                  ∙ if_elim (λ (o : Option (Server S)). is_some o ≡ ltb k (m.handle_id + 1))
                      (m.handle_id == k) _ _ (λ h. ground (arith, h))
                      (λ h. ground (arith, h, v.known k));
            })

  pub known-there :
      (m : ServerManager S) (sh : ℕ)
      → IsNumbered m
      → sh < m.handle_id
      → (s : Server S) × (lookup sh m.servers ≡ some s)
  known-there m sh v lt = elim (Option-cases (lookup sh m.servers)) [
    | inl missing ↦ absurd (ground (arith, lt, v.known sh, ap is_some missing))
    | inr there ↦ there
  ]

  abbrev Below : ℕ → Map (Server S) → Type 0
  Below n [] = Unit
  Below n ((sh, s) ∷ others) = (sh < n) × Below n others

  stop_servers-Keeps :
      (m : ServerManager S) (others : Map (Server S))
      → Below m.handle_id others
      → IsNumbered m
      → Keeps (stop_servers m others)
  unfolding stop_servers
  stop_servers-Keeps m [] h v = v
  stop_servers-Keeps m ((sh, s) ∷ others) h v =
      let (s', at) = known-there m sh v h.0 in
      go
        (λ t.
          stop_servers-Keeps (put_server m sh t) others h.1 (put_server-IsNumbered m sh s' t at v))
        (Server.stop s)
    where
      go :
          ((t : Server S) → Keeps (stop_servers (put_server m sh t) others))
          → (r : Stopped S)
          → Keeps {A = Unit {0}} (elim (stop_result m sh r) [
            | done m' _ ↦ stop_servers m' others
            | threw m' ↦ threw m'
            | blocked ↦ blocked
            | null ↦ null
          ])
      go rest (stopped t) = rest t
      go rest stop_waits = tt
      go rest stop_threw = v

  -- Every entry of a table is found under its key.
  Below-found :
      (xs : Map (Server S)) (n : ℕ) → ((k : ℕ) → is_some (lookup k xs) ≡ true → k < n) → Below n xs
  unfolding lookup
  Below-found [] n h = tt
  Below-found ((k, s) ∷ xs) n h = (
    h k (ap (λ b. is_some (if b then some s else lookup k xs)) (==_refl k)),
    Below-found xs n (λ j e.
        h j (
          if_elim (λ (o : Option (Server S)). is_some o ≡ true) (k == j) _ _ (λ _. refl) (λ _. e))),
  )

  pub stop_all-Keeps : (m : ServerManager S) → IsNumbered m → Keeps (stop_all m)
  unfolding stop_all
  stop_all-Keeps m v =
      stop_servers-Keeps m m.servers
        (Below-found m.servers m.handle_id (λ k e. ground (arith, e, v.known k))) v

  each_server-known :
      (f : ℕ → Server S → Server S) (xs : Map (Server S)) (k : ℕ)
      → (is_some (lookup k (each_server f xs)) ≡ is_some (lookup k xs))
        × (length (each_server f xs) ≡ length xs)
  unfolding each_server lookup
  each_server-known f [] k = (refl, refl)
  each_server-known f ((j, s) ∷ xs) k =
      let (same, long) = each_server-known f xs k in
      (
        if_elim
            (λ (o : Option (Server S)).
              is_some o ≡ is_some (if j == k then some s else lookup k xs))
            (j == k) _ _ (λ e. ap (λ b. is_some (if b then some s else lookup k xs)) (sym e))
            (λ e. same ∙ ap (λ b. is_some (if b then some s else lookup k xs)) (sym e)),
        ap suc long,
      )

  each_server-IsNumbered :
      (m : ServerManager S) (f : ℕ → Server S → Server S)
      → IsNumbered m
      → IsNumbered (record m { servers = each_server f m.servers })
  each_server-IsNumbered m f v = record {
    counted = (each_server-known f m.servers 0).1 ∙ v.counted;
    known = λ k. (each_server-known f m.servers k).0 ∙ v.known k;
  }

  pub wait-IsNumbered : (m : ServerManager S) → IsNumbered m → IsNumbered (wait m)
  unfolding wait
  wait-IsNumbered m v = each_server-IsNumbered m (λ _ s. Server.wait s) v

  pub get_stats-IsNumbered :
      (m : ServerManager S) (clock : ℕ → ℕ) → IsNumbered m → IsNumbered (get_stats m clock).0
  unfolding get_stats
  get_stats-IsNumbered m clock v =
      each_server-IsNumbered m (λ sh s. (Requests.get_stats s (clock sh)).0) v
