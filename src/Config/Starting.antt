-- ===== src/Config/Starting.antt =====
-- When the program of src/main.cpp starts its servers.
use lserver.Prelude.{ℕ, ◌≡◌, ◌↔◌, refl, ap, sym, ◌∙◌, Option, none, some, arith, if_elim}
use lserver.Config.{
  LsConfig, Node, ◌>>=◌, bool_of, parse_config, Main, starts, exits, terminates, start_with,
  args_sanity_check, main,
}

>>=-some {ℓ κ} :
    {A : Type ℓ} {B : Type κ} (m : Option A) (f : A → Option B) {b : B}
    → (m >>= f) ≡ some b
    → (a : A) × (m ≡ some a) × (f a ≡ some b)
>>=-some (some a) f e = (a, refl, e)
>>=-some none f e = absurd (cc e)

some_injective {ℓ} : {A : Type ℓ} {a b : A} → some a ≡ some b → a ≡ b
some_injective {A} {a} {b} e = ap (λ o. elim o [ none ↦ a | some d ↦ d ]) e

-- Each field is what the file has under its keys, but the timeout is whether that is not 0.
pub record IsRead (node : Node) (c : LsConfig) (timeout : ℕ) : Type 0 where
  pub control_listen_address : node.as_string "control_server" "ip" ≡ some c.control_listen_address
  pub control_listen_port : node.as_uint16 "control_server" "port" ≡ some c.control_listen_port
  pub listen_address : node.as_string "listen" "ip" ≡ some c.listen_address
  pub listen_port : node.as_uint16 "listen" "port" ≡ some c.listen_port
  pub reuse_address : node.as_bool "listen" "reuse_address" ≡ some c.reuse_address
  pub separate_acceptor_thread :
      node.as_bool "listen" "separate_acceptor_thread" ≡ some c.separate_acceptor_thread
  pub socket_close_linger :
      node.as_bool "networking" "socket_close_linger" ≡ some c.socket_close_linger
  pub max_connections_per_source :
      node.as_size_t "networking" "max_connections_per_source" ≡ some c.max_connections_per_source
  pub num_workers : node.as_size_t "concurrency" "num_workers" ≡ some c.num_workers
  pub max_num_workers : node.as_size_t "concurrency" "max_num_workers" ≡ some c.max_num_workers
  pub num_threads_per_worker :
      node.as_size_t "concurrency" "num_threads_per_worker" ≡ some c.num_threads_per_worker
  pub max_session_pool_size :
      node.as_size_t "sessions" "max_session_pool_size" ≡ some c.max_session_pool_size
  pub max_transfer_sz : node.as_size_t "sessions" "max_transfer_size" ≡ some c.max_transfer_sz
  pub eager_session_pool : node.as_bool "sessions" "eager_session_pool" ≡ some c.eager_session_pool
  pub header_interval : node.as_size_t "logging" "header_interval" ≡ some c.header_interval
  pub timeout_read : node.as_size_t "networking" "socket_close_linger_timeout" ≡ some timeout
  pub timeout_kept : c.socket_close_linger_timeout ≡ bool_of timeout

parse_config-IsRead :
    (node : Node) (c : LsConfig)
    → parse_config node ≡ some c
    → (timeout : ℕ) × IsRead node c timeout
unfolding parse_config
parse_config-IsRead node c e =
    let (a0, e0, h0) = >>=-some _ _ e in
    let (a1, e1, h1) = >>=-some _ _ h0 in
    let (a2, e2, h2) = >>=-some _ _ h1 in
    let (a3, e3, h3) = >>=-some _ _ h2 in
    let (a4, e4, h4) = >>=-some _ _ h3 in
    let (a5, e5, h5) = >>=-some _ _ h4 in
    let (a6, e6, h6) = >>=-some _ _ h5 in
    let (a7, e7, h7) = >>=-some _ _ h6 in
    let (a8, e8, h8) = >>=-some _ _ h7 in
    let (a9, e9, h9) = >>=-some _ _ h8 in
    let (a10, e10, h10) = >>=-some _ _ h9 in
    let (a11, e11, h11) = >>=-some _ _ h10 in
    let (a12, e12, h12) = >>=-some _ _ h11 in
    let (a13, e13, h13) = >>=-some _ _ h12 in
    let (a14, e14, h14) = >>=-some _ _ h13 in
    let (a15, e15, h15) = >>=-some _ _ h14 in
    let same = some_injective h15 in
    (
      a7,
      record {
        control_listen_address = e0 ∙ ap (λ d. some (LsConfig.control_listen_address d)) same;
        control_listen_port = e1 ∙ ap (λ d. some (LsConfig.control_listen_port d)) same;
        listen_address = e2 ∙ ap (λ d. some (LsConfig.listen_address d)) same;
        listen_port = e3 ∙ ap (λ d. some (LsConfig.listen_port d)) same;
        reuse_address = e4 ∙ ap (λ d. some (LsConfig.reuse_address d)) same;
        separate_acceptor_thread = e5 ∙ ap (λ d. some (LsConfig.separate_acceptor_thread d)) same;
        socket_close_linger = e6 ∙ ap (λ d. some (LsConfig.socket_close_linger d)) same;
        max_connections_per_source =
            e8 ∙ ap (λ d. some (LsConfig.max_connections_per_source d)) same;
        num_workers = e9 ∙ ap (λ d. some (LsConfig.num_workers d)) same;
        max_num_workers = e10 ∙ ap (λ d. some (LsConfig.max_num_workers d)) same;
        num_threads_per_worker = e11 ∙ ap (λ d. some (LsConfig.num_threads_per_worker d)) same;
        max_session_pool_size = e12 ∙ ap (λ d. some (LsConfig.max_session_pool_size d)) same;
        max_transfer_sz = e13 ∙ ap (λ d. some (LsConfig.max_transfer_sz d)) same;
        eager_session_pool = e14 ∙ ap (λ d. some (LsConfig.eager_session_pool d)) same;
        header_interval = e15 ∙ ap (λ d. some (LsConfig.header_interval d)) same;
        timeout_read = e7;
        timeout_kept = sym (ap LsConfig.socket_close_linger_timeout same);
      },
    )

IsRead-parse_config :
    (node : Node) (c : LsConfig) (timeout : ℕ) → IsRead node c timeout → parse_config node ≡ some c
unfolding parse_config
IsRead-parse_config node c timeout v =
    rw
      (
        v.control_listen_address, v.control_listen_port, v.listen_address, v.listen_port,
        v.reuse_address, v.separate_acceptor_thread, v.socket_close_linger, v.timeout_read,
        v.max_connections_per_source, v.num_workers, v.max_num_workers, v.num_threads_per_worker,
        v.max_session_pool_size, v.max_transfer_sz, v.eager_session_pool, v.header_interval,
      )
      (ap (λ b. some (record c { socket_close_linger_timeout = b })) (sym v.timeout_kept))

start_with-starts : (o : Option LsConfig) (c : LsConfig) → start_with o ≡ starts c → o ≡ some c
unfolding start_with
start_with-starts none c e = absurd (cc e)
start_with-starts (some d) c e =
    ap (λ (m : Main). elim m [ starts d' ↦ some d' | exits n ↦ some d | terminates ↦ some d ]) e

main-starts :
    (argc : ℕ) (file : Option Node) (c : LsConfig)
    → main argc file ≡ starts c
    → (argc ≡ 2) × (node : Node) × (file ≡ some node) × (parse_config node ≡ some c)
unfolding main
main-starts argc none c = λ e. absurd (ground (arith, e))
main-starts argc (some node) c =
    if_elim
      (λ (m : Main).
        m ≡ starts c → (argc ≡ 2) × (d : Node) × (some node ≡ some d) × (parse_config d ≡ some c))
      (args_sanity_check argc) _ _
      (λ two e. (ground (arith, two), node, refl, start_with-starts (parse_config node) c e))
      (λ _ e. absurd (cc e))

starts-main :
    (node : Node) (c : LsConfig) → parse_config node ≡ some c → main 2 (some node) ≡ starts c
unfolding main start_with
starts-main node c e = ap start_with e

-- `main` starts its servers with a configuration exactly when there is one argument, the file
-- loads, and each field is what the file has under its two keys, read as the type of the field, but
-- for the timeout, which is read as a number and is kept only as whether it is not 0.
pub main_iff :
    (argc : ℕ) (file : Option Node) (c : LsConfig)
    → (main argc file ≡ starts c)
      ↔ ((argc ≡ 2) × (node : Node) × (file ≡ some node) × (timeout : ℕ) × IsRead node c timeout)
main_iff argc file c = (
  λ e.
      let (two, node, loaded, parsed) = main-starts argc file c e in
      let (timeout, v) = parse_config-IsRead node c parsed in (two, node, loaded, timeout, v),
  λ (two, node, loaded, timeout, v).
      ap (λ n. main n file) two
      ∙ ap (main 2) loaded
      ∙ starts-main node c (IsRead-parse_config node c timeout v),
)
