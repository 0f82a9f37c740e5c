-- ===== src/Manager.antt =====
-- src/manager.hpp, src/manager.cpp and the requests of src/control_server.cpp: the table of servers
-- and what an operator asks of it. A handle, and each `int32` of a request, is its 32 bits. The
-- servers stand in the table in the order of their handles. Each request is one step.
pub mod Handles
pub mod Calls
pub mod Stopping
use lserver.Prelude.{
  to_size_t, ℕ, ◌+◌, ◌-◌, ◌^◌, ◌%◌, Bool, true, false, Option, none, some, List, [], ◌∷◌, ltb,
  if◌then◌else◌, length, Map, lookup, assign, emplace,
}
use lserver.Config.{LsConfig}
use lserver.ContextPool
use lserver.LsContext
use lserver.Stats.{LsStats}
use lserver.Server
use lserver.Server.Requests
use lserver.Server.{Server, Handled, handled, failed, Stopped, stopped, stop_waits, stop_threw}
use lserver.Server.Requests.{Called}
use lserver.Server.Built.{Constructed, constructed, bad_contexts, bad_pool, no_context}

pub record ServerManager {ℓ} (S : Type ℓ) : Type ℓ where
  pub servers : Map (Server S)
  pub handle_id : ℕ

-- A call returns with the manager after it, or an exception leaves it; `blocked` waits for ever as
-- far as the caller can tell, and `null` is the use of a null pointer.
pub data Managed {ℓ} (S : Type ℓ) (A : Type 0) : Type ℓ where
  done : ServerManager S → A → Managed S A
  threw : ServerManager S → Managed S A
  blocked : Managed S A
  null : Managed S A

module _ {ℓ} {S : Type ℓ} where
  unfoldable pub validate_server_handle : ServerManager S → ℕ → Bool
  validate_server_handle m sh = ltb (to_size_t sh) (length m.servers)

  -- `servers_[sh]`, and what follows for that server.
  unfoldable pub found :
      {A : Type 0} → ServerManager S → Option (Server S) → (Server S → Managed S A) → Managed S A
  found m none k = null
  found m (some s) k = k s

  unfoldable pub get_server :
      {A : Type 0} → ServerManager S → ℕ → (Server S → Managed S A) → Managed S A
  unfolding validate_server_handle found
  get_server m sh k =
      if validate_server_handle m sh then found m (lookup sh m.servers) k else threw m

  unfoldable pub put_server : ServerManager S → ℕ → Server S → ServerManager S
  put_server m sh s = record m { servers = assign sh s m.servers }

  -- The new server is in the table before its first `dispatch`.
  unfoldable pub dispatched : ServerManager S → ℕ → Handled S → Managed S ℕ
  unfolding put_server
  dispatched m sh (handled s) = done (put_server m sh s) sh
  dispatched m sh failed = threw m

  unfoldable pub insert_server : ServerManager S → Server S → Managed S ℕ
  unfolding dispatched Server.dispatch
  insert_server m s =
      let sh = m.handle_id in
      let m' = record m { handle_id = sh + 1 } in
      elim (lookup sh m.servers) [
        | some other ↦ threw m'  -- `ServerCreationFailed`
        | none ↦ dispatched (record m' { servers = emplace sh s m.servers }) sh (Server.dispatch s)
      ]

  unfoldable pub create_server : ServerManager S → Constructed S → Managed S ℕ
  unfolding insert_server
  create_server m (constructed s) = insert_server m s
  create_server m (bad_contexts e) = threw m
  create_server m (bad_pool e) = threw m
  create_server m no_context = null

  unfoldable pub stop_result : ServerManager S → ℕ → Stopped S → Managed S (Unit {0})
  unfolding put_server
  stop_result m sh (stopped s) = done (put_server m sh s) tt
  stop_result m sh stop_waits = blocked
  stop_result m sh stop_threw = threw m

  unfoldable pub stop : ServerManager S → (sh : ℕ) → Managed S (Unit {0})
  unfolding get_server stop_result Server.stop
  stop m sh = get_server m sh (λ s. stop_result m sh (Server.stop s))

  -- The loop of `stop()` over the table.
  unfoldable pub stop_servers : ServerManager S → Map (Server S) → Managed S (Unit {0})
  unfolding stop_result Server.stop
  stop_servers m [] = done m tt
  stop_servers m ((sh, s) ∷ others) = elim (stop_result m sh (Server.stop s)) [
    | done m' _ ↦ stop_servers m' others
    | threw m' ↦ threw m'
    | blocked ↦ blocked
    | null ↦ null
  ]

  unfoldable pub stop_all : ServerManager S → Managed S (Unit {0})
  unfolding stop_servers
  stop_all m = stop_servers m m.servers

  -- A loop over the table, with its handles.
  unfoldable pub each_server : (ℕ → Server S → Server S) → Map (Server S) → Map (Server S)
  each_server f [] = []
  each_server f ((sh, s) ∷ others) = (sh, f sh s) ∷ each_server f others

  unfoldable pub wait : ServerManager S → ServerManager S
  unfolding each_server Server.wait
  wait m = record m { servers = each_server (λ _ s. Server.wait s) m.servers }

  -- `clock` is the time at which the sample of a server is taken.
  unfoldable pub samples : (clock : ℕ → ℕ) → Map (Server S) → List LsStats
  unfolding Requests.get_stats
  samples clock [] = []
  samples clock ((sh, s) ∷ others) = (Requests.get_stats s (clock sh)).1 ∷ samples clock others

  unfoldable pub get_stats : ServerManager S → (clock : ℕ → ℕ) → ServerManager S × List LsStats
  unfolding each_server samples Requests.get_stats
  get_stats m clock = (
    record m { servers = each_server (λ sh s. (Requests.get_stats s (clock sh)).0) m.servers },
    samples clock m.servers,
  )

  servers_info : Map (Server S) → List (List LsContext.ContextInfo)
  unfolding Requests.get_server_info
  servers_info [] = []
  servers_info ((sh, s) ∷ others) = Requests.get_server_info s ∷ servers_info others

  unfoldable pub get_servers_info : ServerManager S → List (List LsContext.ContextInfo)
  unfolding servers_info
  get_servers_info m = servers_info m.servers

  -- What a call on a server leaves in the table.
  unfoldable pub called : {A : Type 0} → ServerManager S → ℕ → Called S A → Managed S A
  unfolding put_server
  called m sh (Requests.returned s a) = done (put_server m sh s) a
  called m sh (Requests.threw s e) = threw (put_server m sh s)

  -- The requests of the control service; a reply is the number in it.
  unfoldable pub request_add_context :
      ServerManager S → (memory server_id num_threads : ℕ) → Managed S (Unit {0})
  unfolding get_server called Requests.add_context
  request_add_context m memory server_id num_threads =
      get_server m server_id
        (λ s. called m server_id (Requests.add_context s memory (to_size_t num_threads)))

  unfoldable pub request_deactivate_context :
      ServerManager S → (server_id context_index : ℕ) → Managed S ℕ
  unfolding get_server called Requests.deactivate_context
  request_deactivate_context m server_id context_index =
      get_server m server_id
        (λ s. called m server_id (Requests.deactivate_context s (to_size_t context_index)))
