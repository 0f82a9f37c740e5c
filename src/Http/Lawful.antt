-- ===== src/Http/Lawful.antt =====
-- The HTTP service of src/http.hpp as the protocol of a session.
use lserver.Prelude.{ℕ, Bool, Option, List}
use lserver.Vm.{Vm}
use lserver.Program
use lserver.HttpHeader.{Callback}
use lserver.Session.Writes.{IsLawful, IsValid-IsKept, IsValid}
use lserver.Http.{http}
use lserver.Http.Callbacks.{http-Keeps}

module _ (execute : List ℕ → List Callback × Option ℕ)
    (parse_json : List ℕ → Option Program.Document) (beyond : List ℕ)
    (rounds : List (Bool × (Vm → Vm))) (memory self fuel : ℕ) (allocate : ℕ → List ℕ) where
  -- The HTTP service is a protocol that keeps sessions valid: its start and its answers to data
  -- and to a finished write leave a valid session valid, whatever the parsers, the machine and
  -- the memory do.
  pub http-IsLawful : IsLawful (http execute parse_json beyond rounds memory self fuel allocate)
  http-IsLawful =
      http-Keeps IsValid IsValid-IsKept execute parse_json beyond rounds memory self fuel allocate
