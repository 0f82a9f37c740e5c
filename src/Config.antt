-- ===== src/Config.antt =====
-- src/config.hpp, src/config.cpp, src/args_parser.hpp and the start of src/main.cpp. The YAML
-- library is a parameter: what `YAML::LoadFile` gives, and what a node under two keys is `as` a
-- type; `none` is an exception of the library. Each message to the log is left out.
pub mod Starting
use Prim.Native.String.{String}
use lserver.Prelude.{ℕ, Bool, true, false, not, Option, none, some, List, ◌==◌, if◌then◌else◌}

pub record LsConfig : Type 0 where
  pub listen_address : List ℕ
  pub control_listen_address : List ℕ
  pub num_workers : ℕ
  pub max_num_workers : ℕ
  pub num_threads_per_worker : ℕ
  pub max_session_pool_size : ℕ
  pub max_transfer_sz : ℕ
  pub max_connections_per_source : ℕ
  pub header_interval : ℕ
  pub listen_port : ℕ
  pub control_listen_port : ℕ
  pub reuse_address : Bool
  pub socket_close_linger : Bool
  pub socket_close_linger_timeout : Bool
  pub eager_session_pool : Bool
  pub separate_acceptor_thread : Bool

-- A loaded file.
pub record Node : Type 0 where
  pub as_string : String → String → Option (List ℕ)
  pub as_uint16 : String → String → Option ℕ
  pub as_size_t : String → String → Option ℕ
  pub as_bool : String → String → Option Bool

infixl 5 ◌>>=◌
abbrev pub ◌>>=◌ {ℓ κ} : {A : Type ℓ} {B : Type κ} → Option A → (A → Option B) → Option B
some a >>= f = f a
none >>= f = none

-- A number that is assigned to a `bool`.
abbrev pub bool_of : ℕ → Bool
bool_of n = not (n == 0)

-- `none` is `ConfigParseError`.
unfoldable pub parse_config : Node → Option LsConfig
parse_config config = do
  control_listen_address ← config.as_string "control_server" "ip"
  control_listen_port ← config.as_uint16 "control_server" "port"
  listen_address ← config.as_string "listen" "ip"
  listen_port ← config.as_uint16 "listen" "port"
  reuse_address ← config.as_bool "listen" "reuse_address"
  separate_acceptor_thread ← config.as_bool "listen" "separate_acceptor_thread"
  socket_close_linger ← config.as_bool "networking" "socket_close_linger"
  socket_close_linger_timeout ← config.as_size_t "networking" "socket_close_linger_timeout"
  max_connections_per_source ← config.as_size_t "networking" "max_connections_per_source"
  num_workers ← config.as_size_t "concurrency" "num_workers"
  max_num_workers ← config.as_size_t "concurrency" "max_num_workers"
  num_threads_per_worker ← config.as_size_t "concurrency" "num_threads_per_worker"
  max_session_pool_size ← config.as_size_t "sessions" "max_session_pool_size"
  max_transfer_sz ← config.as_size_t "sessions" "max_transfer_size"
  eager_session_pool ← config.as_bool "sessions" "eager_session_pool"
  header_interval ← config.as_size_t "logging" "header_interval"
  some (record {
    listen_address = listen_address;
    control_listen_address = control_listen_address;
    num_workers = num_workers;
    max_num_workers = max_num_workers;
    num_threads_per_worker = num_threads_per_worker;
    max_session_pool_size = max_session_pool_size;
    max_transfer_sz = max_transfer_sz;
    max_connections_per_source = max_connections_per_source;
    header_interval = header_interval;
    listen_port = listen_port;
    control_listen_port = control_listen_port;
    reuse_address = reuse_address;
    socket_close_linger = socket_close_linger;
    socket_close_linger_timeout = bool_of socket_close_linger_timeout;
    eager_session_pool = eager_session_pool;
    separate_acceptor_thread = separate_acceptor_thread;
  })

-- How `main` goes on: it starts the servers, it exits with a code, or an exception that it does
-- not catch ends the program.
pub data Main : Type 0 where
  starts : LsConfig → Main
  exits : ℕ → Main
  terminates : Main

abbrev pub ec_invalid_commandline_args : ℕ
ec_invalid_commandline_args = 1

abbrev pub ec_invalid_config_file : ℕ
ec_invalid_config_file = 2

abbrev pub args_sanity_check : ℕ → Bool
args_sanity_check argc = argc == 2

unfoldable pub start_with : Option LsConfig → Main
start_with none = exits ec_invalid_config_file
start_with (some config) = starts config

-- `file` is what `YAML::LoadFile` gives for the first argument.
unfoldable pub main : (argc : ℕ) (file : Option Node) → Main
unfolding start_with
main argc file =
    if args_sanity_check argc
    then elim file [ none ↦ terminates | some config ↦ start_with (parse_config config) ]
    else exits ec_invalid_commandline_args
