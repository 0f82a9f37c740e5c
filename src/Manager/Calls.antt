-- ===== src/Manager/Calls.antt =====
-- Every sequence of calls on the manager of src/manager.cpp.
use lserver.Prelude.{
  to_size_t, ℕ, ◌≤◌, ◌<◌, ◌≡◌, refl, ap, some, List, [], ◌∷◌, arith, dec_lt, ◌⊎◌, inl, inr, if_elim,
  lookup,
}
use lserver.Server
use lserver.Server.Requests
use lserver.Server.{Server}
use lserver.Server.Built.{constructed}
use lserver.Manager.{
  ServerManager, Managed, done, threw, blocked, null, validate_server_handle, found, get_server,
  insert_server, create_server, stop_result, stop, stop_all, wait, get_stats, called,
  request_add_context, request_deactivate_context,
}
use lserver.Manager.Handles.{
  IsNumbered, Keeps, get_server-Keeps, called-Keeps, stop_result-Keeps, insert_server-Keeps,
  stop_all-Keeps, wait-IsNumbered, get_stats-IsNumbered, known-there,
}

-- A call on the manager.
pub data Call {ℓ} (S : Type ℓ) : Type ℓ where
  creates : (s : Server S) → Call S
  stops : (sh : ℕ) → Call S
  stops_all : Call S
  waits : Call S
  samples : (clock : ℕ → ℕ) → Call S
  adds : (memory server_id num_threads : ℕ) → Call S
  deactivates : (server_id context_index : ℕ) → Call S

module _ {ℓ} {S : Type ℓ} where
  abbrev after : {A : Type 0} → ServerManager S → Managed S A → ServerManager S
  after m (done m' a) = m'
  after m (threw m') = m'
  after m blocked = m
  after m null = m

  unfoldable pub step : ServerManager S → Call S → ServerManager S
  unfolding create_server stop stop_all wait get_stats request_add_context
      request_deactivate_context
  step m (creates s) = after m (create_server m (constructed s))
  step m (stops sh) = after m (stop m sh)
  step m stops_all = after m (stop_all m)
  step m waits = wait m
  step m (samples clock) = (get_stats m clock).0
  step m (adds memory server_id num_threads) =
      after m (request_add_context m memory server_id num_threads)
  step m (deactivates server_id context_index) =
      after m (request_deactivate_context m server_id context_index)

  unfoldable pub run : ServerManager S → List (Call S) → ServerManager S
  unfolding step
  run m [] = m
  run m (c ∷ cs) = run (step m c) cs

  after-IsNumbered :
      {A : Type 0} (m : ServerManager S) (r : Managed S A)
      → IsNumbered m
      → Keeps r
      → IsNumbered (after m r)
  after-IsNumbered m (done m' a) v h = h
  after-IsNumbered m (threw m') v h = h
  after-IsNumbered m blocked v h = v
  after-IsNumbered m null v h = v

  step-IsNumbered : (m : ServerManager S) (c : Call S) → IsNumbered m → IsNumbered (step m c)
  unfolding step create_server stop request_add_context request_deactivate_context
  step-IsNumbered m (creates s) v =
      after-IsNumbered m (insert_server m s) v (insert_server-Keeps m s v)
  step-IsNumbered m (stops sh) v = after-IsNumbered m (stop m sh) v (
      get_server-Keeps m sh (λ s. stop_result m sh (Server.stop s)) v
        (λ s at. stop_result-Keeps m sh s (Server.stop s) at v))
  step-IsNumbered m stops_all v = after-IsNumbered m (stop_all m) v (stop_all-Keeps m v)
  step-IsNumbered m waits v = wait-IsNumbered m v
  step-IsNumbered m (samples clock) v = get_stats-IsNumbered m clock v
  step-IsNumbered m (adds memory id n) v =
      after-IsNumbered m (request_add_context m memory id n) v (
        get_server-Keeps m id (λ s. called m id (Requests.add_context s memory (to_size_t n))) v
          (λ s at. called-Keeps m id s (Requests.add_context s memory (to_size_t n)) at v))
  step-IsNumbered m (deactivates id index) v =
      after-IsNumbered m (request_deactivate_context m id index) v (
        get_server-Keeps m id (λ s. called m id (Requests.deactivate_context s (to_size_t index))) v
          (λ s at. called-Keeps m id s (Requests.deactivate_context s (to_size_t index)) at v))

  run-IsNumbered : (m : ServerManager S) (cs : List (Call S)) → IsNumbered m → IsNumbered (run m cs)
  unfolding run
  run-IsNumbered m [] v = v
  run-IsNumbered m (c ∷ cs) v = run-IsNumbered (step m c) cs (step-IsNumbered m c v)

  abbrev pub new : ServerManager S
  new = record { servers = []; handle_id = 0 }

  -- After any sequence of servers created, stopped and waited for and of contexts added and
  -- deactivated, with the calls that throw or wait, a handle below the number of servers created
  -- gives the server with that handle, and any other, also a negative one, throws and changes
  -- nothing; no null pointer is followed.
  pub get_server_lem :
      {A : Type 0} (cs : List (Call S)) (sh : ℕ) (k : Server S → Managed S A)
      → let m = run new cs in
        ((s : Server S) × (to_size_t sh < m.handle_id)
          × (lookup sh m.servers ≡ some s)
          × (get_server m sh k ≡ k s))
        ⊎ ((m.handle_id ≤ to_size_t sh) × (get_server m sh k ≡ threw m))
  unfolding get_server validate_server_handle found lookup
  get_server_lem cs sh k =
      let m = run new cs in
      let v : IsNumbered m =
        run-IsNumbered new cs (record { counted = refl; known = λ j. ground arith }) in
      elim (dec_lt (to_size_t sh) m.handle_id) [
        | yes lt ↦
            let (s, at) = known-there m sh v (ground (arith, lt)) in
            inl (
              s,
              lt,
              at,
              if_elim (λ r. r ≡ k s) (validate_server_handle m sh) _ _
                  (λ _. ap (λ o. found m o k) at)
                  (λ bad. absurd (ground (arith, bad, lt, v.counted))),
            )
        | no le ↦ inr (
          omega arith,
          if_elim (λ r. r ≡ threw m) (validate_server_handle m sh) _ _
              (λ ok. absurd (ground (arith, ok, le, v.counted))) (λ _. refl),
        )
      ]
