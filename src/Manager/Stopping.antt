-- ===== src/Manager/Stopping.antt =====
-- `stop()` of src/manager.cpp stops every server.
use lserver.Prelude.{
  ℕ, ◌≡◌, refl, ap, ◌∙◌, inl, inr, true, false, none, some, [], ◌∷◌, arith, if◌then◌else◌, ◌==◌,
  elem, keys, Map, lookup, lookup-assign, Bool-cases, elem-keys, ◌≢◌,
}
use lserver.TriggerGuard
use lserver.Server
use lserver.Server.{Server, Stopped, stopped, stop_waits, stop_threw}
use lserver.Server.Stop.{IsClosed, stop-IsClosed}
use lserver.Manager.{
  ServerManager, Managed, done, threw, blocked, null, put_server, stop_result, stop_servers,
  stop_all,
}

module _ {ℓ} {S : Type ℓ} where
  -- Not stopped yet, and in no handler.
  pub record IsReady (s : Server S) : Type 0 where
    pub armed : s.shutdown_guard.triggered ≡ false
    pub idle : s.shutdown_guard.ref_cnt ≡ 0

  abbrev pub AllReady : Map (Server S) → Type 0
  AllReady [] = Unit
  AllReady ((sh, s) ∷ servers) = IsReady s × AllReady servers

  -- There is a server under the handle, and it is closed.
  abbrev pub ClosedAt : Map (Server S) → ℕ → Type ℓ
  ClosedAt servers sh = (u : Server S) × (lookup sh servers ≡ some u) × IsClosed u

  stop_stopped : (s : Server S) → IsReady s → (u : Server S) × (Server.stop s ≡ stopped u)
  unfolding Server.stop TriggerGuard.trigger
  stop_stopped s v = (
    Server.close (record s { shutdown_guard = record s.shutdown_guard { triggered = true } }),
    ground (arith, v.armed, v.idle),
  )

  Stops : ServerManager S → Map (Server S) → ServerManager S → Type ℓ
  Stops m xs m' =
      (m'.handle_id ≡ m.handle_id)
      × ((sh : ℕ) → elem sh (keys xs) ≡ true → ClosedAt m'.servers sh)
      × ((sh : ℕ) → elem sh (keys xs) ≡ false → lookup sh m'.servers ≡ lookup sh m.servers)

  stop_servers-Stops :
      (m : ServerManager S) (xs : Map (Server S))
      → AllReady xs
      → (m' : ServerManager S) × (stop_servers m xs ≡ done m' tt) × Stops m xs m'
  unfolding stop_servers stop_result put_server Stops elem
  stop_servers-Stops m [] v = (m, refl, (refl, λ sh h. absurd (cc h), λ sh h. refl))
  stop_servers-Stops m ((sh, s) ∷ xs) (ready, v) =
      let (u, e) = stop_stopped s ready in
      let (m', e', (same, closed, rest)) = stop_servers-Stops (put_server m sh u) xs v in
      (
        m',
        ap
              (λ (r : Stopped S). elim (stop_result m sh r) as (λ _. Managed S (Unit {0})) [
                | done m'' _ ↦ stop_servers m'' xs
                | threw m'' ↦ threw m''
                | blocked ↦ blocked
                | null ↦ null
              ])
              e
            ∙ e',
        (
          same,
          λ k h. elim (Bool-cases (elem k (keys xs))) [
            | inl later ↦ closed k later
            | inr absent ↦
                let here : (sh == k) ≡ true = ground (arith, h, absent) in
                (
                  u,
                  rest k absent
                      ∙ lookup-assign sh k u m.servers
                      ∙ ap (λ b. if b then some u else lookup k m.servers) here,
                  stop-IsClosed s u e,
                )
          ],
          λ k h.
              let other : (sh == k) ≡ false = ground (arith, h) in
              let absent : elem k (keys xs) ≡ false = ground (arith, h) in
              rest k absent
              ∙ lookup-assign sh k u m.servers
              ∙ ap (λ b. if b then some u else lookup k m.servers) other,
        ),
      )

  pub stop_all_lem :
      (m : ServerManager S)
      → AllReady m.servers
      → (m' : ServerManager S) × (stop_all m ≡ done m' tt)
        × ((sh : ℕ) → lookup sh m.servers ≢ none → ClosedAt m'.servers sh)
  unfolding stop_all Stops
  stop_all_lem m v =
      let (m', e, (same, closed, rest)) = stop_servers-Stops m m.servers v in
      (m', e, λ sh there. closed sh (elem-keys sh m.servers there))
