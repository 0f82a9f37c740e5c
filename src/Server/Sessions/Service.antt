-- ===== src/Server/Sessions/Service.antt =====
-- The server of src/server.hpp over the HTTP service of src/http.hpp: the references to contexts.
use lserver.Prelude.{ℕ, ◌^◌, ◌<◌, ◌≡◌, Bool, Option, List, Distinct, length}
use lserver.Config.{LsConfig}
use lserver.HttpHeader.{Callback}
use lserver.Program
use lserver.Vm.{Vm}
use lserver.Http.{Http, http}
use lserver.Http.Callbacks.{http-Keeps}
use lserver.Http.Lawful.{http-IsLawful}
use lserver.Session.References.{Attached, Attached-IsKept}
use lserver.Server.{Server, handled, dispatch}
use lserver.Server.Built.{construct, constructed}
use lserver.Server.Reach.{Reach}
use lserver.Server.Sessions.Reach.{IsCounted, Reach-IsCounted}

module _ (execute : List ℕ → List Callback × Option ℕ)
    (parse_json : List ℕ → Option Program.Document) (beyond : List ℕ)
    (rounds : List (Bool × (Vm → Vm))) (memory self fuel : ℕ) (allocate : ℕ → List ℕ) where
  -- When the server over the HTTP service is constructed, where an eager pool creates its
  -- sessions at different addresses, and its first `dispatch` returns: from then on, through
  -- accepts that complete with any result, where a new session has an empty queue, no write in
  -- flight and an address at which no session is live, through contexts added and deactivated,
  -- and through the reads, writes and posted handlers of the sessions, as long as there are fewer
  -- than 2 ^ 64 session objects, the references of each context are as many as the sessions on it
  -- that have not ended, and that is the number that `get_server_info` reports for it; the
  -- context of a session that has not ended has a positive number of references, as `deref`
  -- asserts; a context that may be used again has no such session, and no session in the pool is
  -- still live.
  pub service-IsCounted :
      (config : LsConfig) (before : ℕ) (items : List ℕ) (s v u : Server (Http × Vm))
      → Distinct items
      → construct config before items ≡ constructed s
      → dispatch s ≡ handled v
      → Reach (http execute parse_json beyond rounds memory self fuel allocate) v u
      → length u.objects < 2 ^ 64
      → IsCounted u
  service-IsCounted =
      Reach-IsCounted (http execute parse_json beyond rounds memory self fuel allocate)
        (http-IsLawful execute parse_json beyond rounds memory self fuel allocate)
        (λ n before.
          http-Keeps (Attached n before) (Attached-IsKept n before) execute parse_json beyond rounds
            memory self fuel allocate)
