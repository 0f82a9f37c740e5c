-- ===== src/Lib.antt =====
-- LServer: a network server that simulates load. A manager starts servers; each server accepts
-- connections, takes a session for each of them from a pool, and gives it to one of its I/O
-- contexts, which run threads and which an operator adds and removes while the server works. A
-- session of the HTTP service reads a script from its client and runs it on a virtual machine whose
-- resources all sessions share, then sends as many bytes as the script asks for.
--
-- The library follows the parts, from the data to the service:
--   Prelude          lists, maps and 64-bit words on the native numbers
--   DynamicString    src/dynamic_string.hpp: DynamicString, with `printf` and its retries
--   Pool             src/pool.hpp: Pool, the base of the pools of sessions, strands, buffers and
--                    instructions; Pool/World adds the clients, as a step relation
--   LsContext        src/lscontext.hpp: LSContext, with a strand pool made of a Pool
--   ContextPool      src/io_context_pool.hpp and .cpp: LSContextPool, a vector of LsContext
--   Vm               src/lsvm.hpp: LSVirtualMachine; Vm/Exclusion adds the sessions, as steps
--   Instruction      src/vm_instructions_base.hpp, src/vm_instructions_list.hpp,
--                    src/vm_instructions.hpp: the instructions and the order of their queue
--   Program          src/program.hpp and src/vm_instructions.cpp: Program, its parser, its loop
--                    over the Vm, and its output into a DynamicString
--   DynamicQueue     src/dynamic_queue.hpp: DynamicQueue, the buffers that wait to be sent
--   Session          src/session.hpp: Session, with the once flag of src/syncronization_utils.hpp;
--                    its protocol is an interface with laws, and asio reports the events
--   TriggerGuard     src/syncronization_utils.hpp: TriggerGuard, with its scoped guards as steps
--   HttpHeader       src/http_header.hpp: HttpRequestHeader, with the comparison of src/utils.hpp
--   HttpResponse     src/http_header.hpp: HttpResponseHeader, printed into a DynamicString
--   Http             src/http.hpp: Http, a protocol of Session over HttpHeader, HttpResponse, Program
--                    and Vm
--   Stats            src/stats.hpp: SessionStats, and LSStats with its rows
--   SessionPool      src/session_pool.hpp: SessionPool over a Pool, the counters of its sessions and
--                    its reports of them; SessionPool/Runs has them as steps
--   Config           src/config.hpp, src/config.cpp, src/main.cpp: LsConfig and the start of `main`
--   Server           src/server.hpp, src/session_pool.hpp: Server, over a ContextPool, a
--                    SessionPool and a TriggerGuard; Server/Built is its constructor and
--                    Server/Requests what an operator asks of it; its runs, with the events of its
--                    sessions (Server/Sessions), are a step relation in Server/Reach
--   Manager          src/manager.hpp, src/manager.cpp, src/control_server.cpp: ServerManager, a table
--                    of Server, and the requests that change one
--   Control          src/control_server.cpp: the replies with statistics and contexts
--   Portal           src/portal.hpp, src/portal.cpp, src/service.hpp: Portal, the thread that prints
--                    the rows of Stats for the servers of a Manager
--   Signals          src/signal_manager.hpp, src/main.cpp: what a signal does to Manager and Portal
--   Examples         each theorem at a concrete input
-- The functions bear the names of the methods and take the object first; a method that changes its
-- object returns the new one. Two overloads of `borrow` are `borrow` and `borrow_async`. Where a
-- loop is a helper of its own, it stands above the method that runs it.
--
-- Numbers are those of `std::size_t` and of its atomics: sums and differences that the code makes on
-- counters are modulo 2 ^ 64. Addresses, ids and bytes are numbers. An exception, an `assert` that
-- does not hold, and the use of a bad pointer end the call, as a constructor of its result. Three
-- asserts are left out, so that the count goes on modulo 2 ^ 64 as in the release build, which
-- defines NDEBUG: that a context has a reference in `deref` and a hold in `unhold`, and that a pool has
-- an item in flight when one is put back.
--
-- Loops that the code does not bound run on fuel, one unit for a round: `printf` (three passes are
-- enough unless it stalls), `get_context_round_robin` (as many as there are contexts), `feed` (one
-- more than there are instructions, if all are due), and the client's loop over `get_data` (the size
-- of the download, as each round sends at least one byte).
--
-- A method that locks its mutex for all it does is one step; interleavings are sequences of steps.
-- Two operations lock less than they need, and have a step for each part: a use of `resources_` may
-- insert under a shared lock (Vm/Exclusion), and a report of a session pool walks its sessions with no
-- lock (SessionPool/Runs); these assume that no two insertions, and no two reports, overlap. Each
-- round of the portal says what the other threads have done to the servers since the last one.
-- `LSVirtualMachine::lock` is a list of rounds, each with what the other threads have done to the
-- machine since. Parameters stand for what is not code of the repository: the bytes that an allocation
-- finds, the JSON reader, the HTTP parser, the address that `new` returns. Of asio the session keeps
-- how many reads, writes and posted handlers are still to come; an event is one of those.
--
-- Not modelled: asio (sockets, timers, that the threads of a stopped context end), the HTTP parser
-- copied from another project,
-- logging, the transport of gRPC; how long anything takes; failing allocations; texts of 2 ^ 31
-- bytes or more, whose length `snprintf` cannot return. Of equal
-- trigger points the queue takes the older first, which the library leaves open.
pub mod Prelude
pub mod Config
pub mod ContextPool
pub mod Control
pub mod DynamicQueue
pub mod DynamicString
pub mod Examples
pub mod Http
pub mod HttpHeader
pub mod HttpResponse
pub mod Instruction
pub mod LsContext
pub mod Manager
pub mod Pool
pub mod Portal
pub mod Program
pub mod Server
pub mod Session
pub mod SessionPool
pub mod Signals
pub mod Stats
pub mod TriggerGuard
pub mod Vm
