-- ===== src/Http/Response.antt =====
-- How the HTTP service of src/http.hpp answers a request.
use lserver.Prelude.{
  ℕ, ◌^◌, ◌<◌, ◌≡◌, ap, Bool, true, false, Option, none, some, ◌∙◌, if◌then◌else◌, if_elim, List,
  arith, length, decimal,
}
use lserver.DynamicString.{DynamicString, IsValid}
use lserver.Vm.{Vm}
use lserver.Program
use lserver.HttpHeader.{Callback, get_keep_alive}
use lserver.HttpResponse
use lserver.HttpResponse.{status_code_reason, reason}
use lserver.HttpResponse.Text.{prepare_lem, response_text}
use lserver.Session.{Session, Reply, k_finished, no_reply, send}
use lserver.Http.{Http, respond, reply_with, send_header}

module _ (execute : List ℕ → List Callback × Option ℕ)
    (parse_json : List ℕ → Option Program.Document) (beyond : List ℕ)
    (rounds : List (Bool × (Vm → Vm))) (memory self fuel : ℕ) (allocate : ℕ → List ℕ)
    (allocate_size : (n : ℕ) → length (allocate n) ≡ n) where
  -- When the response has not been sent, the header of the request is ready, its buffer is valid, memory is allocated in the size
  -- asked for, and the result code and the download size of the program are below 2 ^ 31,
  -- `respond` marks the header as sent and sends its buffer, which holds the response with the
  -- code and size of the program and the `keep_alive` of the request.
  pub respond_lem :
      (h : Http) (vm : Vm) (s : Session)
      → h.response_header.sent ≡ false
      → h.request_header.ready ≡ true
      → IsValid h.response_header.buffer
      → h.program.result_code < 2 ^ 31
      → h.program.download_size < 2 ^ 31
      → (d : DynamicString) × (respond execute parse_json beyond rounds memory self fuel allocate
            (h, vm)
            s
          ≡ reply_with execute parse_json beyond rounds memory self fuel allocate
              (
                record h {
                  response_header = record {
                    content_length = h.program.download_size;
                    code = h.program.result_code;
                    keep_alive = h.request_header.keep_alive;
                    buffer = d;
                    sent = true;
                  };
                },
                vm,
              )
              k_finished
              (send s h.response_address))
        × (d.written
            ≡ response_text
                (decimal h.program.result_code)
                (reason status_code_reason h.program.result_code)
                (decimal h.program.download_size)
                h.request_header.keep_alive)
        × IsValid d
  unfolding respond send_header get_keep_alive
  respond_lem h vm s new ready v small small' =
      let (d, e, w, v') =
        prepare_lem allocate allocate_size h.response_header h.program.result_code
          h.program.download_size h.request_header.keep_alive v small small' in
      (
        d,
        if_elim
            (λ r.
              r
              ≡ send_header execute parse_json beyond rounds memory self fuel allocate (h, vm) s
                  (some (record h.response_header {
                    code = h.program.result_code;
                    content_length = h.program.download_size;
                    keep_alive = h.request_header.keep_alive;
                    buffer = d;
                  })))
            h.response_header.sent no_reply _ (λ t. absurd (ground arith))
            (λ _.
              ap
                (λ b.
                  elim (if b then some h.request_header.keep_alive else none)
                    as (λ _. Reply (Http × Vm)) [
                      | none ↦ no_reply
                      | some keep_alive ↦
                          send_header execute parse_json beyond rounds memory self fuel allocate
                            (h, vm) s
                            (HttpResponse.prepare allocate 3 h.response_header h.program.result_code
                              h.program.download_size keep_alive)
                    ])
                ready
              ∙ ap
                  (send_header execute parse_json beyond rounds memory self fuel allocate (h, vm) s)
                  e),
        w,
        v',
      )
