-- ===== src/Node/Boot/Examples.antt =====
-- `main` of the node at concrete configurations, and the theorems about it there.
use cellframe_node.Prelude.{
  ℕ, ◌≡◌, ◌≢◌, arith, refl, true, false, none, some, List, [], ◌∷◌, ℤ, pos, neg, String,
}
use cellframe_node.Process.{ret, exit}
use cellframe_node.Node.PidLock.{PidFile, proc_running_check, run, step, locked_from, locked_within}
use cellframe_node.Signals.{sigterm, at_start, deliver, sig_unix_handler_init}
use cellframe_node.Node.Boot.{run_steps, boot, expand_home, prepare, sys_dir, node_main}
use cellframe_node.Node.Boot.Plan.{
  Node, Module, Event, nets_online, base_plan, stream_plan, chain_plan, service_plan, plugin_plan,
  load_plan, server_plan, listen_plan, last_plan, plan, stops,
}
use cellframe_node.Node.Boot.Order.{BootOutcome, boot-BootOutcome}
use cellframe_node.Node.Boot.Serve.{InOrder, boot-InOrder}
use cellframe_node.Node.Boot.Signalled.{handlers_behind, deliver-boot}
use cellframe_node.Node.Boot.Guard.{node_main_second}

-- A node whose wallets do not start.
abbrev no_wallet : Module → ℤ
no_wallet Module.wallet = neg 1
no_wallet _ = pos 0

abbrev all_start : Module → ℤ
all_start _ = pos 0

abbrev free_file : PidFile
free_file = record { content = none; readable = true; writable = true; locks = [] }

-- The file that process 77 has claimed.
abbrev held_file : PidFile
held_file = record {
  content = some (55 ∷ 55 ∷ []);
  readable = true;
  writable = true;
  locks = record { owner = 77; first = 2 } ∷ [];
}

abbrev node_with : (Module → ℤ) → PidFile → ℕ → Node
node_with init file max_path = record {
  max_path = max_path;
  dir_test = λ _. true;
  mkdir_with_parents = λ _. pos 0;
  common_init = λ _. pos 0;
  config_init = λ _. pos 0;
  config_open = true;
  home = some "/root";
  find_option = λ argv name before. (false, before);
  pid_path = λ path. path;
  pid_file = λ _. file;
  me = 412;
  init = init;
  pid_path_text = λ default. default;
  threads_cnt = pos 0;
  debug_mode = false;
  rotate_enabled = false;
  rotate_timeout = 0;
  rotate_size = 0;
  server_enabled = true;
  server_new = true;
  mempool_accept = some "true";
  www_enabled = false;
  www_root = none;
  http_balancer = true;
  dns_balancer = true;
  plugins_enabled = true;
  plugins_path = λ default. default;
  vpn_enabled = false;
  geoip_enabled = false;
  path_enc_init = "enc_init";
  path_stream = "stream";
  path_stream_ctl = "stream_ctl";
  path_node_list = "node_list";
  path_balancer = "balancer";
  events_wait = pos 0;
}

abbrev fine_node : Node
fine_node = node_with all_start free_file 4096

abbrev system_dir : String
system_dir = "/opt/cellframe-node"

abbrev argv_plain : List String
argv_plain = "cellframe-node" ∷ []

-- The wallets of the chain fail.
no_wallet_runs : (boot (node_with no_wallet free_file 4096) system_dir none).0 ≡ ret (neg 61)
unfolding boot run_steps plan base_plan stream_plan chain_plan service_plan plugin_plan load_plan
    server_plan last_plan listen_plan sig_unix_handler_init
no_wallet_runs = refl

expand_home_runs : expand_home (some "/root") "~/plugins" ≡ "/root/plugins"
unfolding expand_home
expand_home_runs = refl

expand_home_runs_user : expand_home (some "/root") "~bob/plugins" ≡ "~bob/plugins"
unfolding expand_home
expand_home_runs_user = refl

boot-BootOutcome_example :
    BootOutcome
      (node_with no_wallet free_file 4096)
      system_dir
      none
      (boot (node_with no_wallet free_file 4096) system_dir none)
boot-BootOutcome_example = boot-BootOutcome (node_with no_wallet free_file 4096) system_dir none

-- The file behind a node whose process is 77.
abbrev claimed_file : PidFile
claimed_file = (proc_running_check 77 free_file).1

me-differs : fine_node.me ≢ 77
me-differs e = absurd (omega arith)

node_main_second_example :
    node_main (node_with all_start claimed_file 4096) argv_plain ≡ (ret (pos 2), [])
unfolding prepare sys_dir proc_running_check run step locked_from locked_within
node_main_second_example =
    node_main_second (node_with all_start claimed_file 4096) argv_plain 77 free_file me-differs refl
      refl refl refl refl

boot-InOrder_example : InOrder (boot fine_node system_dir none).1
boot-InOrder_example = boot-InOrder fine_node system_dir none

-- The calls of a run without a failure, up to the chains' going online.
abbrev calls : List Event
calls = (boot fine_node system_dir none).1

abbrev up_to_online : List Event → List Event
up_to_online [] = []
up_to_online (nets_online ∷ _) = []
up_to_online (e ∷ es) = e ∷ up_to_online es

abbrev online_on : List Event → List Event
online_on [] = []
online_on (nets_online ∷ es) = es
online_on (_ ∷ es) = online_on es

deliver-boot_example :
    deliver (handlers_behind fine_node (up_to_online calls) at_start) sigterm ≡ exit (pos 0)
unfolding boot run_steps plan base_plan stream_plan chain_plan service_plan plugin_plan load_plan
    server_plan last_plan listen_plan stops sig_unix_handler_init
deliver-boot_example =
    deliver-boot fine_node system_dir none (up_to_online calls) nets_online (online_on calls)
      sigterm refl
