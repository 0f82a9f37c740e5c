-- ===== src/Examples/Connections.antt =====
-- A connection to a server of src/server.hpp over the HTTP service of src/http.hpp.
use lserver.Prelude.{◌≡◌, refl, true, false, [], arith, length, lookup, assign}
use lserver.ContextPool
use lserver.LsContext
use lserver.Session
use lserver.Session.Events.{received, posted}
use lserver.Http
use lserver.Http.{Http}
use lserver.Vm.{Vm}
use lserver.ContextPool.References.{refs_at}
use lserver.Server.{Server, Handled, handled, failed, dispatch, accept_event}
use lserver.Server.Built.{Constructed, constructed, construct}
use lserver.Server.Sessions.{session_event}
use lserver.Server.Reach.{Reach, here, next, accepts, moves}
use lserver.Server.Sessions.Reach.{IsCounted}
use lserver.Server.Sessions.Service.{service-IsCounted}
use lserver.Examples.Servers.{config, server}
use lserver.Examples.Sessions.{execute, no_json, zeros, protocol, service, machine, idle}

abbrev HttpServer : Type 0
HttpServer = Server (Http × Vm)

abbrev built_of : Constructed (Http × Vm) → HttpServer
built_of (constructed s) = s
built_of _ = server

abbrev server_of : Handled (Http × Vm) → HttpServer
server_of (handled s) = s
server_of failed = server

abbrev built : HttpServer
unfolding construct
built = built_of (construct config 0 [])

abbrev first : HttpServer
unfolding dispatch
first = server_of (dispatch built)

abbrev second : HttpServer
unfolding accept_event
second = server_of (accept_event protocol ((service, machine), idle) false 7 8 first false)

built_returned : construct config 0 [] ≡ constructed built
unfolding construct ContextPool.add_context LsContext.set_num_threads LsContext.reusable
    LsContext.run_threads LsContext.construct
built_returned = refl

first_returned : dispatch built ≡ handled first
unfolding dispatch built ContextPool.add_context LsContext.set_num_threads LsContext.reusable
    LsContext.run_threads LsContext.construct
first_returned = refl

second_returned :
    accept_event protocol ((service, machine), idle) false 7 8 first false ≡ handled second
unfolding accept_event built ContextPool.add_context LsContext.set_num_threads LsContext.reusable
    LsContext.run_threads LsContext.construct Http.reset Session.reset_buffers LsContext.hold
second_returned = refl

-- A read fails, and then the handler that closes the session runs.
abbrev failing : HttpServer
unfolding session_event
failing = server_of (session_event protocol second 7 (received true []) false)

abbrev ended : HttpServer
unfolding session_event
ended = server_of (session_event protocol failing 7 posted false)

failing_returned : session_event protocol second 7 (received true []) false ≡ handled failing
unfolding session_event lookup second built ContextPool.add_context LsContext.set_num_threads
    LsContext.reusable LsContext.run_threads LsContext.construct Http.reset Session.reset_buffers
    LsContext.hold assign Session.receive_event_cb
failing_returned = refl

ended_returned : session_event protocol failing 7 posted false ≡ handled ended
unfolding session_event lookup second built ContextPool.add_context LsContext.set_num_threads
    LsContext.reusable LsContext.run_threads LsContext.construct Http.reset Session.reset_buffers
    LsContext.hold assign Session.receive_event_cb Session.close_event
ended_returned = refl

-- The session is on the second context, and counts there until it ends.
counted :
    (refs_at second.workers_pool.lscontexts 1 ≡ 1)
    × (refs_at failing.workers_pool.lscontexts 1 ≡ 1)
    × (refs_at ended.workers_pool.lscontexts 1 ≡ 0)
unfolding session_event lookup second built ContextPool.add_context LsContext.set_num_threads
    LsContext.reusable LsContext.run_threads LsContext.construct Http.reset Session.reset_buffers
    LsContext.hold assign Session.receive_event_cb Session.close_event LsContext.deref LsContext.ref
    LsContext.borrow_strand LsContext.put_strand
counted = (refl, refl, refl)

few : length ended.objects ≡ 1
unfolding session_event lookup second built ContextPool.add_context LsContext.set_num_threads
    LsContext.reusable LsContext.run_threads LsContext.construct Http.reset Session.reset_buffers
    LsContext.hold assign Session.receive_event_cb Session.close_event LsContext.deref LsContext.ref
    LsContext.borrow_strand LsContext.put_strand
few = refl

run : Reach protocol first ended
unfolding lookup first built ContextPool.add_context LsContext.set_num_threads LsContext.reusable
    LsContext.run_threads LsContext.construct
run =
    next
      (next
        (next here (
          accepts ((service, machine), idle) false 7 8 false second refl refl refl second_returned))
        (moves 7 (received true []) false failing failing_returned))
      (moves 7 posted false ended ended_returned)

service-IsCounted_example : IsCounted ended
service-IsCounted_example =
    service-IsCounted execute no_json [] [] 0 9 10 zeros config 0 [] built first ended tt
      built_returned first_returned run (omega (arith, few))
