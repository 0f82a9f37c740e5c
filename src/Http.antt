-- ===== src/Http.antt =====
-- src/http.hpp: the HTTP service, a protocol of a session. The machine is shared by all sessions,
-- which change it between the events of one. The session queues buffers by their addresses. A call
-- of `feed` or `prepare` that does not return, and a failed `assert`, give no reply.
pub mod Callbacks
pub mod Lawful
pub mod Steady
pub mod Length
pub mod Response
use lserver.Prelude.{
  ℕ, suc, Bool, true, false, Option, none, some, List, [], ◌∷◌, ltb, if◌then◌else◌, length,
}
use lserver.DynamicString
use lserver.DynamicString.{DynamicString}
use lserver.Vm.{Vm}
use lserver.Instruction.{ops}
use lserver.Program
use lserver.Program.{Program}
use lserver.HttpHeader
use lserver.HttpHeader.{get_keep_alive, HttpRequestHeader, Callback, url_prefix, get_content_length}
use lserver.HttpResponse
use lserver.HttpResponse.{HttpResponseHeader}
use lserver.Session
use lserver.Session.{
  Session, Reply, replied, no_reply, k_finished, k_continue, k_close, k_data, Protocol, send,
  consume, set_expected_data_length, check_finished, reset_buffers,
}

pub record Http : Type 0 where
  pub request_header : HttpRequestHeader
  pub response_header : HttpResponseHeader
  pub response_address : ℕ
  pub program : Program
  pub d : DynamicString
  pub d_address : ℕ

-- `"/vscript/"` and `"/sinkhole/"`
abbrev pub vscript_url : List ℕ
vscript_url = 47 ∷ 118 ∷ 115 ∷ 99 ∷ 114 ∷ 105 ∷ 112 ∷ 116 ∷ 47 ∷ []

abbrev pub sinkhole_url : List ℕ
sinkhole_url = 47 ∷ 115 ∷ 105 ∷ 110 ∷ 107 ∷ 104 ∷ 111 ∷ 108 ∷ 101 ∷ 47 ∷ []

-- What the choice of a program comes to.
pub data Prepared : Type 0 where
  prepared : Http → Session → Prepared
  stays : Http → Session → Session.Feedback → Prepared
  undefined : Prepared

-- The header reader, the JSON reader, what follows the received bytes in memory, what the other
-- threads do while `lock` waits, what allocations find in memory, the address of the program, and
-- the fuel of `feed`; each `printf` of a response has three passes.
module _ (execute : List ℕ → List Callback × Option ℕ)
    (parse_json : List ℕ → Option Program.Document) (beyond : List ℕ)
    (rounds : List (Bool × (Vm → Vm))) (memory self fuel : ℕ) (allocate : ℕ → List ℕ) where
  unfoldable pub on_closed : Http × Vm → Http × Vm
  on_closed (h, vm) =
      let (program, vm') = Program.reset h.program vm self in (record h { program = program }, vm')

  unfoldable pub reset : Http × Vm → Session → (Http × Vm) × Session
  unfolding HttpResponse.reset
  reset (h, vm) s =
      let (program, vm') = Program.reset h.program vm self in
      (
        (
          record h {
            program = program;
            request_header = HttpHeader.reset;
            response_header = HttpResponse.reset h.response_header;
          },
          vm',
        ),
        reset_buffers s,
      )

  -- Hands a buffer to the session.
  unfoldable pub reply_with : Http × Vm → Session.Feedback → Option Session → Reply (Http × Vm)
  reply_with x feedback none = no_reply
  reply_with x feedback (some s) = replied x s feedback

  unfoldable pub send_data :
      Http × Vm → Session → Option (Program × DynamicString) → Reply (Http × Vm)
  unfolding reply_with
  send_data (h, vm) s none = no_reply
  send_data (h, vm) s (some (program, d)) =
      reply_with (record h { program = program; d = d }, vm) k_data (send s h.d_address)

  unfoldable pub next_request : Http × Vm → Session → Reply (Http × Vm)
  unfolding reset
  next_request (h, vm) s =
      let (x, s') = reset (h, vm) s in
      elim (get_keep_alive h.request_header) [
        | none ↦ no_reply
        | some keep_alive ↦
            if keep_alive then replied x s' k_continue else replied (h, vm) s k_close
      ]

  unfoldable pub on_sent : Http × Vm → Session → Reply (Http × Vm)
  unfolding send_data next_request
  on_sent (h, vm) s = elim (Program.has_more_data h.program) [
    | none ↦ no_reply
    | some more ↦
        if more
        then send_data (h, vm) s (Program.get_data h.program h.d)
        else next_request (h, vm) s
  ]

  -- What is left when there is a header; the outer `none` is an `assert` that does not hold.
  unfoldable pub accept_header :
      Http → Session → Option (HttpRequestHeader × Option ℕ) → Option (Option (Http × Session))
  accept_header h s none = none
  accept_header h s (some (request_header, none)) = some none
  accept_header h s (some (request_header, some header_end_offset)) =
      elim (get_content_length request_header) [
        | none ↦ none
        | some content_length ↦ some (
            some (
              record h { request_header = request_header },
              consume (set_expected_data_length s content_length) header_end_offset,
            ))
      ]

  unfoldable pub try_handle_header : Http → Session → Option (Option (Http × Session))
  unfolding accept_header
  try_handle_header h s = accept_header h s (HttpHeader.try_parse execute h.request_header s.ubuf)

  unfoldable pub load_vscript : Http → Session → Program.Parsed → Prepared
  load_vscript h s (Program.success program consume_len) =
      prepared (record h { program = program }) (consume s consume_len)
  load_vscript h s Program.need_more_data = stays h s k_continue
  load_vscript h s Program.failed = stays h s k_close
  load_vscript h s Program.crashed = undefined

  unfoldable pub choose_program : Http → Session → Prepared
  unfolding load_vscript
  choose_program h s =
      if h.program.has_vm
      then prepared h s
      else if url_prefix vscript_url h.request_header.url
      then elim (get_content_length h.request_header) [
        | none ↦ undefined
        | some content_length ↦
            if ltb content_length 2
            then stays h s k_close
            else load_vscript h s (Program.try_parse parse_json s.ubuf beyond)
      ]
      else if url_prefix sinkhole_url h.request_header.url
      then prepared (record h { program = Program.assign (ops []) }) s
      else stays h s k_close

  unfoldable pub send_header : Http × Vm → Session → Option HttpResponseHeader → Reply (Http × Vm)
  unfolding reply_with HttpResponse.set_sent
  send_header x s none = no_reply
  send_header (h, vm) s (some response_header) =
      reply_with (record h { response_header = HttpResponse.set_sent response_header }, vm)
        k_finished (send s h.response_address)

  unfoldable pub respond : Http × Vm → Session → Reply (Http × Vm)
  unfolding send_header HttpResponse.is_sent HttpResponse.prepare
  respond (h, vm) s =
      if HttpResponse.is_sent h.response_header
      then no_reply
      else elim (get_keep_alive h.request_header) [
        | none ↦ no_reply
        | some keep_alive ↦
            send_header (h, vm) s
              (HttpResponse.prepare allocate 3 h.response_header h.program.result_code
                h.program.download_size keep_alive)
      ]

  -- What follows the call of `feed`.
  unfoldable pub after_feed : Http → Session → Program.Fed → Reply (Http × Vm)
  unfolding respond
  after_feed h s (Program.fed program vm finished) =
      let h' = record h { program = program } in
      if finished then respond (h', vm) (consume s 0) else replied (h', vm) (consume s 0) k_continue
  after_feed h s (Program.stuck program vm) = no_reply
  after_feed h s Program.Fed.crashed = no_reply
  after_feed h s Program.Fed.out_of_fuel = no_reply

  unfoldable pub run_program : Vm → Prepared → Reply (Http × Vm)
  unfolding after_feed
  run_program vm (prepared h s) = after_feed h s (
      Program.feed rounds memory self fuel (Program.set_vm h.program) vm (length s.ubuf)
        (check_finished s))
  run_program vm (stays h s feedback) = replied (h, vm) s feedback
  run_program vm undefined = no_reply

  unfoldable pub on_header :
      Vm → Http → Session → Option (Option (Http × Session)) → Reply (Http × Vm)
  unfolding run_program choose_program
  on_header vm h s none = no_reply
  on_header vm h s (some none) = replied (h, vm) s k_continue
  on_header vm h s (some (some (h', s'))) = run_program vm (choose_program h' s')

  unfoldable pub on_data : Http × Vm → Session → Reply (Http × Vm)
  unfolding on_header try_handle_header
  on_data (h, vm) s =
      if h.request_header.ready
      then run_program vm (choose_program h s)
      else on_header vm h s (try_handle_header h s)

  abbrev pub http : Protocol (Http × Vm)
  http = record { start = reset; on_data = on_data; on_sent = on_sent; on_closed = on_closed }
