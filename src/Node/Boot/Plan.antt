-- ===== src/Node/Boot/Plan.antt =====
-- The calls that `main` of sources/cellframe-node.c makes behind the check for another node, in
-- their order, as the configuration has them.
use cellframe_node.Prelude.{
  ℕ, ◌*◌, ◌%◌, ◌^◌, Bool, true, false, ◌&&◌, Option, none, some, List, [], ◌∷◌, ◌++◌, ℤ, pos, neg,
  is_zero, unsigned, String,
}
use cellframe_node.Prelude.Text.{◌<>◌, str_eq}
use cellframe_node.Process.{Outcome, ret, exit, fault}
use cellframe_node.Node.PidLock.{PidFile}
use cellframe_node.Signals.{Signals, at_start, sig_unix_handler_init}

-- The modules of the SDK, and of the node, that are started or stopped.
pub data Module : Type 0 where
  common config interval_timer enc enc_ks events server http http_folder http_simple : Module
  enc_http stream stream_ctl client notify_server global_db datum_mempool chain : Module
  srv_stake_pos_delegate cs_dag cs_dag_poa cs_blocks cs_esbocs nonconsensus net policy : Module
  wallet net_srv srv_xchange srv_dex srv_voting srv_bridge srv_stake_ext srv_stake_lock : Module
  srv_vpn_pre sig_unix_handler node_cli wallet_cache plugin wallet_shared srv_order : Module
  node_list_clean global_db_clean mempool_autoproc json_rpc srv_vpn vpn_client geoip : Module
  dns_server : Module

pub data Event : Type 0 where
  -- an `…_init` with its result; one without
  tried : Module → ℤ → Event
  started : Module → Event
  -- `dap_events_init` with this count of threads, and `dap_events_start`
  events_started : ℕ → Event
  -- a `…_deinit`, or the like
  stopped : Module → Event
  -- `dap_log_level_set` of L_DEBUG, or of L_NOTICE
  log_level_set : Bool → Event
  -- the cleaner of the log: milliseconds, megabytes
  log_cleaner : ℕ → ℕ → Event
  -- `dap_plugin_init` is given this path; `dap_plugin_load_all` with `dap_plugin_preinit_all`;
  -- `dap_plugin_start_all`; `dap_plugin_stop_all`
  plugins_from : String → Event
  plugins_loaded plugins_started plugins_stopped : Event
  -- `dap_chain_net_load_all`, `dap_chain_net_try_online_all`
  nets_loaded nets_online : Event
  -- `dap_http_server_new`, and whether there is a server now
  server_made : Bool → Event
  -- a handler for this path; `dap_server_set_default`
  proc_added : String → Event
  -- `dap_http_folder_add` of a folder, whose name may be null, under a path
  folder_added : String → Option String → Event
  server_set_default : Event
  -- the event loop, with the result of `dap_events_wait`
  looped : ℤ → Event

-- What the SDK and the system answer to `main`.
pub record Node : Type 0 where
  pub max_path : ℕ
  pub dir_test : String → Bool
  pub mkdir_with_parents : String → ℤ
  pub common_init : String → ℤ
  pub config_init : String → ℤ
  pub config_open : Bool
  -- `getenv("HOME")`
  pub home : Option String
  -- `dap_cli_server_cmd_find_option_val` from argv[1] on: whether it is not 0, and what the
  -- pointer is, given what it was
  pub find_option : List String → String → Option String → Bool × Option String
  -- resources.pid_path, given the default; the file there; the pid
  pub pid_path : String → String
  pub pid_file : String → PidFile
  pub me : ℕ
  pub init : Module → ℤ
  -- the same setting as a text, not as a path
  pub pid_path_text : String → String
  -- resources.threads_cnt, an `int32_t`
  pub threads_cnt : ℤ
  -- general.debug_mode
  pub debug_mode : Bool
  -- log.rotate_enabled, .rotate_timeout, .rotate_size
  pub rotate_enabled : Bool
  pub rotate_timeout : ℕ
  pub rotate_size : ℕ
  pub server_enabled : Bool
  pub server_new : Bool
  pub mempool_accept : Option String
  pub www_enabled : Bool
  -- resources.www_root
  pub www_root : Option String
  pub http_balancer : Bool
  pub dns_balancer : Bool
  pub plugins_enabled : Bool
  -- plugins.path, given the default
  pub plugins_path : String → String
  pub vpn_enabled : Bool
  pub geoip_enabled : Bool
  -- the SDK's paths of the handlers: DAP_UPLINK_PATH_ENC_INIT, _STREAM, _STREAM_CTL, _NODE_LIST,
  -- _BALANCER
  pub path_enc_init : String
  pub path_stream : String
  pub path_stream_ctl : String
  pub path_node_list : String
  pub path_balancer : String
  pub events_wait : ℤ

-- A call: its failure is `return code`, or only logged, or it has no result.
pub data Step : Type 0 where
  fatal : Module → ℤ → Step
  warn : Module → Step
  effect : Event → Step

abbrev pub when : Bool → List Step → List Step
when true steps = steps
when false steps = []

abbrev pub path_or : Option String → String → String
path_or none default = default
path_or (some p) default = p

-- The result of a call; one that does not return has none.
abbrev pub code_of : Outcome (ℤ × Signals) → ℤ
code_of (ret (code, _)) = code
code_of (exit code) = code
code_of fault = pos 0

module _ (env : Node) where
  -- `sig_unix_handler_init`, with the path that it is given.
  abbrev pub handle_signals : Signals → Outcome (ℤ × Signals)
  handle_signals = sig_unix_handler_init (env.pid_path_text "/tmp")

  -- The result of a module's `…_init`: that of the signal handlers is the node's own.
  abbrev pub module_init : Module → ℤ
  module_init sig_unix_handler = code_of (handle_signals at_start)
  module_init m = env.init m

  -- From the log's level to the server.
  unfoldable pub base_plan : List Step
  base_plan =
      effect (log_level_set env.debug_mode)
        ∷ when (env.rotate_enabled)
            (effect (log_cleaner ((env.rotate_timeout * 60000) % 2 ^ 64) (env.rotate_size)) ∷ [])
      ++ fatal enc (neg 56)
        ∷ effect (events_started (unsigned 32 env.threads_cnt))
        ∷ when (env.server_enabled) (fatal server (neg 4) ∷ [])

  -- From the http server to the client.
  unfoldable pub stream_plan : List Step
  stream_plan =
      fatal http (neg 5)
      ∷ fatal http_folder (neg 55)
      ∷ fatal http_simple (neg 9)
      ∷ fatal enc_http (neg 81)
      ∷ fatal stream (neg 82)
      ∷ fatal stream_ctl (neg 83)
      ∷ effect (started client)
      ∷ warn notify_server
      ∷ []

  -- The database, the chains with their kinds of consensus, the nets and the wallets.
  unfoldable pub chain_plan : List Step
  chain_plan =
      fatal global_db (neg 58)
      ∷ fatal datum_mempool (neg 59)
      ∷ fatal chain (neg 60)
      ∷ warn srv_stake_pos_delegate
      ∷ fatal cs_dag (neg 62)
      ∷ fatal cs_dag_poa (neg 63)
      ∷ fatal cs_blocks (neg 62)
      ∷ fatal cs_esbocs (neg 69)
      ∷ fatal nonconsensus (neg 71)
      ∷ fatal net (neg 65)
      ∷ fatal policy (neg 66)
      ∷ fatal wallet (neg 61)
      ∷ []

  -- The services, the signals and the console's server.
  unfoldable pub service_plan : List Step
  service_plan =
      fatal net_srv (neg 66)
      ∷ warn srv_xchange
      ∷ warn srv_dex
      ∷ warn srv_voting
      ∷ warn srv_bridge
      ∷ warn srv_stake_ext
      ∷ warn srv_stake_lock
      ∷ warn srv_vpn_pre
      ∷ fatal sig_unix_handler (neg 12)
      ∷ fatal node_cli (neg 11)
      ∷ fatal wallet_cache (neg 61)
      ∷ []

  -- `l_plugins_enabled`, which a failure resets.
  abbrev pub plugins_on : Bool
  plugins_on = env.plugins_enabled && is_zero (env.init plugin)

  -- The path is that of the command line, if there is one; the default is in the system's folder.
  unfoldable pub plugin_plan : String → Option String → List Step
  plugin_plan dir override =
      when (env.plugins_enabled) (
        effect (plugins_from (path_or override (env.plugins_path (dir <> "/var/lib/plugins"))))
        ∷ warn plugin
        ∷ [])
      ++ when plugins_on (effect plugins_loaded ∷ [])

  unfoldable pub load_plan : List Step
  load_plan =
      effect nets_loaded
      ∷ fatal wallet_shared (neg 61)
      ∷ fatal srv_order (neg 67)
      ∷ fatal node_list_clean (neg 131)
      ∷ fatal global_db_clean (neg 133)
      ∷ effect (started mempool_autoproc)
      ∷ []

  abbrev pub is_true : Option String → Bool
  is_true none = false
  is_true (some s) = str_eq s "true"

  -- The handlers of the node's own server, if there is one.
  unfoldable pub listen_plan : List Step
  listen_plan =
      effect (proc_added ("/" <> env.path_enc_init))
        ∷ effect (proc_added ("/" <> env.path_stream))
        ∷ effect (proc_added ("/" <> env.path_stream_ctl))
        ∷ when (is_true (env.mempool_accept)) (effect (proc_added "/mempool") ∷ [])
      ++ fatal json_rpc (neg 12)
        ∷ when (env.www_enabled) (effect (folder_added "/" env.www_root) ∷ [])
      ++ effect server_set_default
        ∷ effect (proc_added ("/" <> env.path_node_list))
        ∷ when (env.http_balancer) (effect (proc_added ("/" <> env.path_balancer)) ∷ [])
      ++ when (env.dns_balancer) (effect (started dns_server) ∷ [])

  unfoldable pub server_plan : List Step
  server_plan =
      when (env.server_enabled) (effect (server_made (env.server_new)) ∷ [])
      ++ when (env.server_enabled && env.server_new) listen_plan

  unfoldable pub last_plan : List Step
  last_plan =
      when (env.vpn_enabled) (fatal srv_vpn (neg 70) ∷ [])
      ++ fatal vpn_client (neg 72) ∷ when (env.geoip_enabled) (fatal geoip (neg 73) ∷ [])
      ++ when plugins_on (effect plugins_started ∷ [])
      ++ effect nets_online ∷ []

  unfoldable pub plan : String → Option String → List Step
  plan dir override =
      base_plan
      ++ stream_plan
      ++ chain_plan
      ++ service_plan
      ++ plugin_plan dir override
      ++ load_plan
      ++ server_plan
      ++ last_plan

  abbrev pub when_stopped : Bool → List Event → List Event
  when_stopped true es = es
  when_stopped false es = []

  -- What is stopped behind the event loop.
  unfoldable pub stops : List Event
  stops =
      when_stopped plugins_on (plugins_stopped ∷ stopped plugin ∷ [])
      ++ stopped dns_server
        ∷ stopped stream
        ∷ stopped stream_ctl
        ∷ stopped http_folder
        ∷ stopped http
        ∷ when_stopped (env.server_enabled) (stopped server ∷ [])
      ++ stopped enc_ks
        ∷ stopped mempool_autoproc
        ∷ stopped srv_xchange
        ∷ stopped srv_stake_pos_delegate
        ∷ stopped srv_stake_lock
        ∷ stopped srv_bridge
        ∷ stopped srv_voting
        ∷ stopped net
        ∷ stopped global_db
        ∷ stopped chain
        ∷ stopped config
        ∷ stopped interval_timer
        ∷ stopped common
        ∷ []
