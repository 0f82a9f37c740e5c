-- ===== src/Http/Length.antt =====
-- When the HTTP service of src/http.hpp takes a request for complete.
use lserver.Vm.{Vm}
use lserver.Program
use lserver.HttpHeader
use lserver.Session.{Session}
use lserver.Http.{Http}
