-- ===== src/Http/Callbacks.antt =====
-- The callbacks of src/http.hpp keep what the methods of the session keep.
use lserver.Prelude.{
  ℕ, Bool, true, false, Option, none, some, List, ltb, if_elim, if◌then◌else◌, [],
}
use lserver.DynamicString.{DynamicString}
use lserver.Vm.{Vm}
use lserver.Instruction.{ops}
use lserver.Program
use lserver.Program.{Program}
use lserver.HttpHeader
use lserver.HttpHeader.{Callback, url_prefix, get_content_length, get_keep_alive}
use lserver.HttpResponse
use lserver.HttpResponse.{HttpResponseHeader}
use lserver.Session
use lserver.Session.{
  Session, Reply, replied, no_reply, k_finished, k_continue, k_close, k_data, send, consume,
  set_expected_data_length, reset_buffers, check_finished,
}
use lserver.Session.Callbacks.{SendsWith, RepliesWith, IsKept, Keeps}
use lserver.Http.{
  Http, vscript_url, sinkhole_url, Prepared, prepared, stays, undefined, reset, reply_with,
  send_data, next_request, on_sent, accept_header, try_handle_header, load_vscript, choose_program,
  send_header, respond, after_feed, run_program, on_header, on_data, http,
}

module _ (P : Session → Type 0) (kept : IsKept P) (execute : List ℕ → List Callback × Option ℕ)
    (parse_json : List ℕ → Option Program.Document) (beyond : List ℕ)
    (rounds : List (Bool × (Vm → Vm))) (memory self fuel : ℕ) (allocate : ℕ → List ℕ) where
  reply_with-Replies :
      (x : Http × Vm) (feedback : Session.Feedback) (o : Option Session)
      → SendsWith P o
      → RepliesWith P
          (reply_with execute parse_json beyond rounds memory self fuel allocate x feedback o)
  unfolding reply_with
  reply_with-Replies x feedback none v = tt
  reply_with-Replies x feedback (some s) v = v

  send_data-Replies :
      (x : Http × Vm) (s : Session) (o : Option (Program × DynamicString))
      → P s
      → RepliesWith P (send_data execute parse_json beyond rounds memory self fuel allocate x s o)
  unfolding send_data
  send_data-Replies (h, vm) s none v = tt
  send_data-Replies (h, vm) s (some (program, d)) v =
      reply_with-Replies (record h { program = program; d = d }, vm) k_data (send s h.d_address)
        (kept.send s h.d_address v)

  reset-Keeps :
      (x : Http × Vm) (s : Session)
      → P s
      → P (reset execute parse_json beyond rounds memory self fuel allocate x s).1
  unfolding reset
  reset-Keeps (h, vm) s v = kept.reset_buffers s v

  next_request-Replies :
      (x : Http × Vm) (s : Session)
      → P s
      → RepliesWith P (next_request execute parse_json beyond rounds memory self fuel allocate x s)
  unfolding next_request
  next_request-Replies (h, vm) s v = go (get_keep_alive h.request_header)
    where
      next : (Http × Vm) × Session
      next = reset execute parse_json beyond rounds memory self fuel allocate (h, vm) s

      go :
          (o : Option Bool)
          → RepliesWith P (elim o [
            | none ↦ no_reply
            | some keep_alive ↦
                if keep_alive then replied next.0 next.1 k_continue else replied (h, vm) s k_close
          ])
      go none = tt
      go (some true) = reset-Keeps (h, vm) s v
      go (some false) = v

  on_sent-Replies :
      (x : Http × Vm) (s : Session)
      → P s
      → RepliesWith P (on_sent execute parse_json beyond rounds memory self fuel allocate x s)
  unfolding on_sent
  on_sent-Replies (h, vm) s v =
      let more = ltb 0 h.program.download_size in
      if_elim
        (λ (o : Option Bool). RepliesWith P (elim o [
          | none ↦ no_reply
          | some more ↦
              if more
              then send_data execute parse_json beyond rounds memory self fuel allocate (h, vm) s
                  (Program.get_data h.program h.d)
              else next_request execute parse_json beyond rounds memory self fuel allocate (h, vm) s
        ]))
        h.program.finished (some more) none
        (λ _.
          if_elim (RepliesWith P) more
            (send_data execute parse_json beyond rounds memory self fuel allocate (h, vm) s
              (Program.get_data h.program h.d))
            (next_request execute parse_json beyond rounds memory self fuel allocate (h, vm) s)
            (λ _. send_data-Replies (h, vm) s (Program.get_data h.program h.d) v)
            (λ _. next_request-Replies (h, vm) s v))
        (λ _. tt)

  send_header-Replies :
      (x : Http × Vm) (s : Session) (o : Option HttpResponseHeader)
      → P s
      → RepliesWith P (send_header execute parse_json beyond rounds memory self fuel allocate x s o)
  unfolding send_header
  send_header-Replies x s none v = tt
  send_header-Replies (h, vm) s (some response_header) v =
      reply_with-Replies (record h { response_header = HttpResponse.set_sent response_header }, vm)
        k_finished (send s h.response_address) (kept.send s h.response_address v)

  respond-Replies :
      (x : Http × Vm) (s : Session)
      → P s
      → RepliesWith P (respond execute parse_json beyond rounds memory self fuel allocate x s)
  unfolding respond
  respond-Replies (h, vm) s v =
      if_elim (RepliesWith P) (HttpResponse.is_sent h.response_header) no_reply _ (λ _. tt)
        (λ _. go (get_keep_alive h.request_header))
    where
      go :
          (o : Option Bool)
          → RepliesWith P (elim o [
            | none ↦ no_reply
            | some keep_alive ↦
                send_header execute parse_json beyond rounds memory self fuel allocate
                  (h, vm)
                  s
                  (HttpResponse.prepare allocate 3 h.response_header h.program.result_code
                    h.program.download_size keep_alive)
          ])
      go none = tt
      go (some keep_alive) =
          send_header-Replies (h, vm) s
            (HttpResponse.prepare allocate 3 h.response_header h.program.result_code
              h.program.download_size keep_alive)
            v

  after_feed-Replies :
      (h : Http) (s : Session) (r : Program.Fed)
      → P s
      → RepliesWith P (after_feed execute parse_json beyond rounds memory self fuel allocate h s r)
  unfolding after_feed
  after_feed-Replies h s (Program.fed program vm finished) v =
      let h' = record h { program = program } in
      if_elim (RepliesWith P) finished
        (respond execute parse_json beyond rounds memory self fuel allocate (h', vm) (consume s 0))
        (replied (h', vm) (consume s 0) k_continue)
        (λ _. respond-Replies (h', vm) (consume s 0) (kept.consume s 0 v)) (λ _. kept.consume s 0 v)
  after_feed-Replies h s (Program.stuck program vm) v = tt
  after_feed-Replies h s Program.Fed.crashed v = tt
  after_feed-Replies h s Program.Fed.out_of_fuel v = tt

  abbrev Prepares : Prepared → Type 0
  Prepares (prepared h s) = P s
  Prepares (stays h s feedback) = P s
  Prepares undefined = Unit

  run_program-Replies :
      (vm : Vm) (p : Prepared)
      → Prepares p
      → RepliesWith P (run_program execute parse_json beyond rounds memory self fuel allocate vm p)
  unfolding run_program
  run_program-Replies vm (prepared h s) v = after_feed-Replies h s _ v
  run_program-Replies vm (stays h s feedback) v = v
  run_program-Replies vm undefined v = tt

  load_vscript-Prepares :
      (h : Http) (s : Session) (r : Program.Parsed)
      → P s
      → Prepares (load_vscript execute parse_json beyond rounds memory self fuel allocate h s r)
  unfolding load_vscript
  load_vscript-Prepares h s (Program.success program n) v = kept.consume s n v
  load_vscript-Prepares h s Program.need_more_data v = v
  load_vscript-Prepares h s Program.failed v = v
  load_vscript-Prepares h s Program.crashed v = tt

  choose_program-Prepares :
      (h : Http) (s : Session)
      → P s
      → Prepares (choose_program execute parse_json beyond rounds memory self fuel allocate h s)
  unfolding choose_program
  choose_program-Prepares h s v =
      go h.program.has_vm (url_prefix vscript_url h.request_header.url)
        (url_prefix sinkhole_url h.request_header.url) (get_content_length h.request_header)
    where
      go :
          (running vscript sinkhole : Bool) (length : Option ℕ)
          → Prepares (
              if running
              then prepared h s
              else if vscript
              then elim length [
                | none ↦ undefined
                | some content_length ↦
                    if ltb content_length 2
                    then stays h s k_close
                    else load_vscript execute parse_json beyond rounds memory self fuel allocate h s
                        (Program.try_parse parse_json s.ubuf beyond)
              ]
              else if sinkhole
              then prepared (record h { program = Program.assign (ops []) }) s
              else stays h s k_close)
      go true vscript sinkhole short = v
      go false true sinkhole none = tt
      go false true sinkhole (some n) =
          if_elim Prepares (ltb n 2) (stays h s k_close) _ (λ _. v)
            (λ _. load_vscript-Prepares h s (Program.try_parse parse_json s.ubuf beyond) v)
      go false false true short = v
      go false false false short = v

  on_header-Replies :
      (vm : Vm) (h : Http) (s : Session)
      → P s
      → RepliesWith P (
          on_header execute parse_json beyond rounds memory self fuel allocate vm h s
            (try_handle_header execute parse_json beyond rounds memory self fuel allocate h s))
  unfolding on_header try_handle_header accept_header
  on_header-Replies vm h s v = go (HttpHeader.try_parse execute h.request_header s.ubuf)
    where
      go :
          (r : Option (HttpHeader.HttpRequestHeader × Option ℕ))
          → RepliesWith P (
              on_header execute parse_json beyond rounds memory self fuel allocate vm h s
                (accept_header execute parse_json beyond rounds memory self fuel allocate h s r))
      go none = tt
      go (some (request_header, none)) = v
      go (some (request_header, some n)) = by_length (get_content_length request_header)
        where
          by_length :
              (o : Option ℕ)
              → RepliesWith P (
                  on_header execute parse_json beyond rounds memory self fuel allocate vm h s
                    (elim o [
                      | none ↦ none
                      | some content_length ↦ some (
                          some (
                            record h { request_header = request_header },
                            consume (set_expected_data_length s content_length) n,
                          ))
                    ]))
          by_length none = tt
          by_length (some l) = run_program-Replies vm _ (
              choose_program-Prepares (record h { request_header = request_header })
                (consume (set_expected_data_length s l) n)
                (kept.consume (set_expected_data_length s l) n
                  (kept.set_expected_data_length s l v)))

  on_data-Replies :
      (x : Http × Vm) (s : Session)
      → P s
      → RepliesWith P (on_data execute parse_json beyond rounds memory self fuel allocate x s)
  unfolding on_data
  on_data-Replies (h, vm) s v =
      if_elim (RepliesWith P) h.request_header.ready
        (run_program execute parse_json beyond rounds memory self fuel allocate vm
          (choose_program execute parse_json beyond rounds memory self fuel allocate h s))
        (on_header execute parse_json beyond rounds memory self fuel allocate vm h s
          (try_handle_header execute parse_json beyond rounds memory self fuel allocate h s))
        (λ _. run_program-Replies vm _ (choose_program-Prepares h s v))
        (λ _. on_header-Replies vm h s v)

  pub http-Keeps : Keeps P (http execute parse_json beyond rounds memory self fuel allocate)
  http-Keeps = record { start = reset-Keeps; on_data = on_data-Replies; on_sent = on_sent-Replies }
