-- ===== src/Http/Steady.antt =====
-- Sessions of src/session.hpp with the service of src/http.hpp on top.
use lserver.Prelude.{Option, ℕ, Bool, List}
use lserver.DynamicQueue
use lserver.DynamicString.{DynamicString}
use lserver.LsContext.{LsContext}
use lserver.Vm.{Vm}
use lserver.Program
use lserver.Program.{Program}
use lserver.HttpHeader.{Callback}
use lserver.Session.{Session, After, setup, session_start}
use lserver.Http.{Http, http}

module _ (execute : List ℕ → List Callback × Option ℕ)
    (parse_json : List ℕ → Option Program.Document) (beyond : List ℕ)
    (rounds : List (Bool × (Vm → Vm))) (memory self fuel : ℕ) (allocate : ℕ → List ℕ) where
  -- A begun of the service on a context, as the server starts it.
  abbrev pub begun :
      (stopped : Bool) → Http × Vm → Session → LsContext → (item : ℕ) → After (Http × Vm)
  begun stopped x s c item =
      session_start (http execute parse_json beyond rounds memory self fuel allocate) stopped x
        (setup s c item)
