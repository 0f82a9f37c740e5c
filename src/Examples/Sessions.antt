-- ===== src/Examples/Sessions.antt =====
-- A connection of the HTTP service of src/http.hpp, from its start to its end.
use lserver.Prelude.{
  inl, ap, ℕ, zero, suc, ◌+◌, ◌-◌, ◌<◌, ◌≡◌, refl, Bool, true, false, Option, none, some, List, [],
  ◌∷◌, arith, min, length,
}
use lserver.Pool
use lserver.LsContext.{LsContext}
use lserver.Vm.{Vm}
use lserver.Program
use lserver.HttpHeader
use lserver.HttpHeader.{
  HttpRequestHeader, Callback, on_url, connection, charmap, find_name, k_connection,
}
use lserver.HttpResponse.{HttpResponseHeader}
use lserver.Session.{
  send_event_cb, replied, after, k_finished, k_close, Session, Protocol, setup, session_start,
  next_transfer_sz, max_transfer_sz, close_once, close_event,
}
use lserver.Session.Writes.{IsFine, IsLawful}
use lserver.Session.Events.{Event, received, sent, posted, run, run-IsFine}
use lserver.Session.Deferred.{all_sent, send_event_cb-shuts_down}
use lserver.Session.Shutdown.{next_transfer_sz_lem, close_event-late, close_once-setup}
use lserver.Http.{Http, http, respond, reply_with, sinkhole_url}
use lserver.Http.Lawful.{http-IsLawful}
use lserver.Http

-- A parser that finds the URL of the sinkhole and a length of 2 in every header.
abbrev pub execute : List ℕ → List Callback × Option ℕ
execute bytes = (on_url sinkhole_url ∷ [], some 2)

abbrev pub no_json : List ℕ → Option Program.Document
no_json text = none

-- What an allocation finds.
abbrev pub zeros : ℕ → List ℕ
zeros zero = []
zeros (suc n) = 0 ∷ zeros n

abbrev response_header : HttpResponseHeader
response_header = record {
  content_length = 0;
  code = 0;
  keep_alive = false;
  buffer = record { capacity = 64; written = []; unused = zeros 64 };
  sent = false;
}

abbrev pub idle : Session
idle = record {
  outgoing_queue = record { q = [] };
  ubuf = [];
  socket = true;
  lscontext = none;
  strand = none;
  expected_data_chunck_sz = 0;
  expected_data_chunck_sz_set = false;
  prepare_for_shutdown = false;
  invoked = false;
  bytes_received = 0;
  bytes_sent = 0;
  reads = 0;
  writes = 0;
  closes = 0;
  finalized = 0;
}

abbrev pub context : LsContext
context = record {
  threads = 2;
  running = 2;
  io_stopped = false;
  work_guard = true;
  num_threads = 2;
  strand_pool = Pool.empty 0;
  ref_cnt = 0;
  hold_cnt = 1;
  active = true;
}

abbrev pub service : Http
service = record {
  request_header = HttpHeader.reset;
  response_header = response_header;
  response_address = 1;
  program = Program.empty;
  d = record { capacity = 0; written = []; unused = [] };
  d_address = 2;
}

abbrev pub machine : Vm
machine = record { resources = [] }

abbrev pub protocol : Protocol (Http × Vm)
protocol = http execute no_json [] [] 0 9 10 zeros

-- A header of four bytes and a body of two.
abbrev request : List ℕ
request = 13 ∷ 10 ∷ 13 ∷ 10 ∷ 65 ∷ 66 ∷ []

abbrev events : List (Event × Bool)
events =
    (received false request, false)
    ∷ (sent false 40, false)
    ∷ (posted, false)
    ∷ (received true [], false)
    ∷ (posted, false)
    ∷ []

http-IsLawful_example : IsLawful protocol
http-IsLawful_example = http-IsLawful execute no_json [] [] 0 9 10 zeros

run-IsFine_example :
    IsFine
      (run protocol events (session_start protocol false (service, machine) (setup idle context 5)))
run-IsFine_example =
    run-IsFine protocol (http-IsLawful execute no_json [] [] 0 9 10 zeros) events false
      (service, machine) idle context 5 refl refl

abbrev arrived : Session
arrived = record idle { ubuf = request; bytes_received = 6 }

abbrev over : Session
over = record idle {
  expected_data_chunck_sz = 50;
  expected_data_chunck_sz_set = true;
  bytes_received = 105;
}

next_transfer_sz_lem_example :
    (over.expected_data_chunck_sz_set ≡ false → next_transfer_sz over ≡ some 1)
    × (over.expected_data_chunck_sz_set ≡ true
        → over.bytes_received < over.expected_data_chunck_sz
        → next_transfer_sz over
          ≡ some (min (over.expected_data_chunck_sz - over.bytes_received) max_transfer_sz))
    × (over.expected_data_chunck_sz_set ≡ true
        → over.bytes_received ≡ over.expected_data_chunck_sz
        → next_transfer_sz over ≡ none)
    × (over.expected_data_chunck_sz_set ≡ true
        → over.expected_data_chunck_sz < over.bytes_received
        → next_transfer_sz over ≡ some max_transfer_sz)
next_transfer_sz_lem_example = next_transfer_sz_lem over (omega arith) (omega arith)

abbrev closing : Session
closing = record idle { lscontext = some context; closes = 2 }

close_event-late_example :
    let first = close_event protocol false (service, machine) closing in
    let again = setup first.1 context 5 in
    (first.1.finalized ≡ closing.finalized + 1)
    × (again.socket ≡ true)
    × (0 < again.closes)
    × ((close_event protocol false first.0 again).1.socket ≡ false)
    × ((close_event protocol false first.0 again).1.finalized ≡ 1)
close_event-late_example =
    close_event-late protocol false (service, machine) closing context 5 refl refl (omega arith)

close_once-setup_example :
    (d : LsContext) × ((close_once protocol false
        (service, machine)
        (setup idle context 5)).1.lscontext
      ≡ some d)
    × (d.ref_cnt ≡ context.ref_cnt)
    × (Pool.get_in_flight_cnt d.strand_pool ≡ Pool.get_in_flight_cnt context.strand_pool)
close_once-setup_example =
    close_once-setup protocol false (service, machine) idle context 5 refl refl refl (omega arith)
      (omega arith)

-- A protocol that says nothing and closes after a write.
abbrev quiet : Protocol ℕ
quiet = record {
  start = λ x s. (x, s);
  on_data = λ x s. replied x s k_finished;
  on_sent = λ x s. replied x s k_close;
  on_closed = λ x. x;
}

abbrev last_write : Session
last_write = record idle {
  outgoing_queue = record { q = 1 ∷ [] };
  writes = 1;
  prepare_for_shutdown = true;
}

send_event_cb-shuts_down_example :
    (u : Session) × (send_event_cb quiet false 0 last_write false 40 ≡ after 0 u)
    × (u.prepare_for_shutdown ≡ false)
    × (0 < u.closes)
    × ((close_event quiet false 0 u).1.socket ≡ false)
    × ((close_event quiet false 0 u).1.finalized ≡ 0 + 1)
send_event_cb-shuts_down_example =
    send_event_cb-shuts_down quiet 0 0 last_write (all_sent quiet last_write 40) 40 1 k_close refl
      refl (inl refl) refl refl refl

length-zeros : (n : ℕ) → length (zeros n) ≡ n
length-zeros zero = refl
length-zeros (suc n) = ap suc (length-zeros n)

abbrev asked : Http
asked = record service {
  program = record Program.empty { result_code = 200; download_size = 4096 };
}
