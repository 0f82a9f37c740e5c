-- ===== src/Examples/Servers.antt =====
-- A server of src/server.hpp over the HTTP service, from its constructor to its end.
use lserver.Prelude.{
  to_size_t, ℕ, zero, suc, ◌+◌, ◌≡◌, ◌≤◌, ◌<◌, ◌⊎◌, ◌↔◌, lookup, refl, true, false, some, List, [],
  ◌∷◌, arith, length,
}
use lserver.Config.{LsConfig, Node, main, starts}
use lserver.Config.Starting.{IsRead, main_iff}
use lserver.ContextPool
use lserver.ContextPool.{ContextPool, Outcome}
use lserver.ContextPool.Holds.{holds_at}
use lserver.ContextPool.Reconfigure.{pool_of, made-IsValid}
use lserver.LsContext
use lserver.LsContext.{LsContext}
use lserver.Pool
use lserver.Pool.{Pool}
use lserver.TriggerGuard
use lserver.Vm.{Vm}
use lserver.Http.{Http}
use lserver.Http.Callbacks.{http-Keeps}
use lserver.Session.Contexts.{On-IsKept}
use lserver.Session.Start.{Same, IsOn}
use lserver.SessionPool
use lserver.Server.{Server, handled, dispatch, accept_event, close, stop}
use lserver.Server.Built.{construct, constructed}
use lserver.Manager.{ServerManager, Managed, get_server, done, threw}
use lserver.Manager.Calls.{new, run, creates, stops, get_server_lem}
use lserver.Server.Holds.{IsHeld, Accepts, occurrences}
use lserver.Server.Rests.{Starts}
use lserver.Server.Accept.{accept_event-Accepts}
use lserver.Server.Reach.{Reach, Reach-holds}
use lserver.Server.Stop.{IsClosed, stop-IsClosed}
use lserver.Examples.Sessions.{execute, no_json, zeros, protocol, service, machine, idle, context}

abbrev pub config : LsConfig
config = record {
  listen_address = [];
  control_listen_address = [];
  max_transfer_sz = 0;
  max_connections_per_source = 0;
  header_interval = 20;
  listen_port = 8080;
  control_listen_port = 5050;
  reuse_address = true;
  socket_close_linger = false;
  socket_close_linger_timeout = true;
  num_workers = 2;
  max_num_workers = 4;
  num_threads_per_worker = 3;
  max_session_pool_size = 0;
  eager_session_pool = false;
  separate_acceptor_thread = false;
}

abbrev workers : ContextPool
workers = pool_of (ContextPool.construct 2 4 0 3)

workers_returned : ContextPool.construct 2 4 0 3 ≡ ContextPool.made workers
unfolding ContextPool.construct ContextPool.add_context LsContext.set_num_threads LsContext.reusable
    LsContext.run_threads LsContext.construct
workers_returned = refl

http-Starts : Starts protocol
unfolding lserver.Http.reset
http-Starts x s = refl

Reach-holds_example :
    (own : List ℕ) × (length own ≤ 1)
    × (config.separate_acceptor_thread ≡ true → own ≡ [])
    × (s : Server (Http × Vm)) × (v : Server (Http × Vm)) × (construct config 0 [] ≡ constructed s)
    × (dispatch s ≡ handled v)
    × ((u : Server (Http × Vm))
        → Reach protocol v u
        → (id : ℕ) × (u.accepting ≡ id ∷ [])
          × ((i : ℕ) → holds_at u.workers_pool.lscontexts i ≡ occurrences i (id ∷ own)))
Reach-holds_example =
    Reach-holds protocol http-Starts
      (λ c. http-Keeps (IsOn c) (On-IsKept (Same c)) execute no_json [] [] 0 9 10 zeros) config 0 []
      workers (Pool.empty 0) workers_returned (unfold Pool.construct in refl)
      (made-IsValid 0 3 (omega arith) (omega arith) 2 4 (omega arith) (omega arith))

-- One context, held for an accept.
abbrev pub server : Server (Http × Vm)
server = record {
  separate_acceptor_thread = true;
  workers_pool = record { lscontexts = context ∷ []; capacity = 2; next_context = 0 };
  pool = SessionPool.empty 0;
  acceptor_pool = record { lscontexts = []; capacity = 0; next_context = 0 };
  socket = some 0;
  acceptor_open = true;
  accepting = 0 ∷ [];
  shutdown_guard = TriggerGuard.new;
  accepted_cnt = 0;
  objects = [];
}

server-IsHeld : IsHeld [] server (0 ∷ [])
unfolding ContextPool.active_contexts_count
server-IsHeld = record {
  few = omega arith;
  armed = refl;
  valid = record { bounded = omega arith; pointed = omega arith; serving = omega arith };
  holds = holds;
}
  where
    holds : (i : ℕ) → holds_at (context ∷ []) i ≡ occurrences i (0 ∷ []) + occurrences i []
    holds zero = refl
    holds (suc i) = ground arith

accept_event-Accepts_example :
    Accepts [] (accept_event protocol ((service, machine), idle) false 7 8 server false)
accept_event-Accepts_example =
    accept_event-Accepts [] protocol ((service, machine), idle) false 7 8 http-Starts server 0 false
      refl server-IsHeld

stop-IsClosed_example :
    IsClosed
      (close (record server { shutdown_guard = record TriggerGuard.new { triggered = true } }))
stop-IsClosed_example =
    stop-IsClosed server
      (close (record server { shutdown_guard = record TriggerGuard.new { triggered = true } }))
      (unfold stop in refl)

-- A file with the same string, port, number and flag under all keys.
abbrev file : Node
file = record {
  as_string = λ k l. some [];
  as_uint16 = λ k l. some 80;
  as_size_t = λ k l. some 5;
  as_bool = λ k l. some true;
}

abbrev argc : ℕ
argc = 2

abbrev filed : LsConfig
filed = record {
  listen_address = [];
  control_listen_address = [];
  num_workers = 5;
  max_num_workers = 5;
  num_threads_per_worker = 5;
  max_session_pool_size = 5;
  max_transfer_sz = 5;
  max_connections_per_source = 5;
  header_interval = 5;
  listen_port = 80;
  control_listen_port = 80;
  reuse_address = true;
  socket_close_linger = true;
  socket_close_linger_timeout = true;
  eager_session_pool = true;
  separate_acceptor_thread = true;
}

main_iff_example : (main argc (some file) ≡ starts filed) ↔ (
    (argc ≡ 2)
    × (node : Node) × (some file ≡ some node)
    × (timeout : ℕ) × IsRead node filed timeout)
main_iff_example = main_iff argc (some file) filed

-- The manager after one server has been created and stopped, and a use of a server of it.
abbrev manager : ServerManager (Http × Vm)
manager = run new (creates server ∷ stops 0 ∷ [])

abbrev accepted : Server (Http × Vm) → Managed (Http × Vm) ℕ
accepted s = done manager s.accepted_cnt

get_server_lem_example :
    ((s : Server (Http × Vm)) × (to_size_t 0 < manager.handle_id)
      × (lookup 0 manager.servers ≡ some s)
      × (get_server manager 0 accepted ≡ accepted s))
    ⊎ ((manager.handle_id ≤ to_size_t 0) × (get_server manager 0 accepted ≡ threw manager))
get_server_lem_example = get_server_lem (creates server ∷ stops 0 ∷ []) 0 accepted
