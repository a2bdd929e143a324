-- ===== src/Tool/Examples/Commands.antt =====
-- The tool's start and its table of commands over the small SDK.
use cellframe_node.Prelude.{◌≡◌, refl, ◌↔◌, true, List, [], ◌∷◌, ◌++◌, pos, String}
use cellframe_node.Process.{ret}
use cellframe_node.Tool.Init.{Setup, init, init_ca_slash}
use cellframe_node.Tool.Dispatch.{Command, find_command, tool_main}
use cellframe_node.Tool.Dispatch.Table.{command_words, Selects, Selects-iff}
use cellframe_node.Tool.Dispatch.Folder.{RunsNothing, tool_main_folder-RunsNothing}
use cellframe_node.Tool.Examples.{small_sdk, small_dirs}

abbrev small_setup : Setup
small_setup = record {
  default_sys_dir = "/opt/cellframe-node";
  dir_test = λ _. true;
  common_init = pos 0;
  config_init = λ _. pos 0;
  config_open = true;
  ca_folders = "/ca/";
  wallets_path = "/wallets";
  strncpy = λ s. s;
}

init_runs : (sys_dir : String) → init small_setup sys_dir ≡ ret (pos 0, small_dirs)
init_runs sys_dir = init_ca_slash small_setup sys_dir "/ca" refl refl refl refl refl

Selects-iff_example : Selects Command.cert_dump ("cert" ∷ "dump" ∷ "node" ∷ []) ↔ (
    (more : List String) × ◌≡◌ {A = List String}
      ("cert" ∷ "dump" ∷ "node" ∷ [])
      (command_words Command.cert_dump ++ more))
Selects-iff_example = Selects-iff Command.cert_dump ("cert" ∷ "dump" ∷ "node" ∷ [])

no_help_command : (c : Command) → ¬ Selects c ("help" ∷ [])
unfolding find_command
no_help_command c e = cc e

tool_main_folder-RunsNothing_example :
    RunsNothing small_sdk []
      (tool_main small_sdk small_setup ("t" ∷ "-B" ∷ "/opt" ∷ "cert" ∷ "dump" ∷ "node" ∷ []) [])
tool_main_folder-RunsNothing_example =
    tool_main_folder-RunsNothing small_sdk [] small_setup "t" "/opt" refl (init_runs "/opt")
      Command.cert_dump ("node" ∷ []) refl
