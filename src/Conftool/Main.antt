-- ===== src/Conftool/Main.antt =====
-- `main` and `init_configs` of conftool/main.cpp, built for Linux, Android or macOS.
pub mod Help
pub mod Lifting
pub mod Setup
pub mod Outcome
pub mod Words
use cellframe_node.Prelude.{
  ℕ, Bool, true, false, not, ◌&&◌, ◌||◌, Option, none, some, List, [], ◌∷◌, ◌++◌, if◌then◌else◌, ℤ,
  pos, neg,
}
use cellframe_node.Prelude.Bytes.{Bytes, codes, same, is_empty}
use cellframe_node.Conftool.World.{
  Host, Platform, linux, android, macos, World, Run, Vars, done, ◌>>=◌, ◌>>◌, pure, throw, print,
  variables, file_exists, contents, Output, said, shown,
}
use cellframe_node.Conftool.ConfigFile.{read_lines}
use cellframe_node.Conftool.Main.Help.{print_help}
use cellframe_node.Conftool.Variables.{get_var, put, put_var}
use cellframe_node.Conftool.Script.{Command, parse_lines, parse_line_to_cmd, run_commands}

-- `cmdOptionExists`
unfoldable pub option_exists : List Bytes → Bytes → Bool
unfolding same
option_exists [] option = false
option_exists (a ∷ rest) option = same a option || option_exists rest option

-- The arguments behind the first that is this option.
unfoldable pub behind : List Bytes → Bytes → List Bytes
unfolding same
behind [] option = []
behind (a ∷ rest) option = let more = behind rest option in if same a option then rest else more

abbrev pub first_word : List Bytes → Bytes
first_word [] = []
first_word (a ∷ _) = a

-- `getCmdOption`
unfoldable pub get_cmd_option : List Bytes → Bytes → Bytes → Bytes
unfolding option_exists behind
get_cmd_option argv long short =
    first_word (behind argv (if option_exists argv long then long else short))

abbrev pub asks : List Bytes → Bytes → Bytes → Bool
asks argv long short = option_exists argv long || option_exists argv short

-- The loop behind `-e`: the words of the commands between "and", each followed by a space. The
-- words of the command that is being read are in front.
unfoldable pub split_commands : Bytes → List Bytes → List Bytes
unfolding same
split_commands current [] = current ∷ []
split_commands current (word ∷ words) =
    let next = current ∷ split_commands [] words in
    let more = split_commands (current ++ (word ++ b' ' ∷ [])) words in
    if same word (codes "and") then next else more

unfoldable pub parse_all : List Bytes → Run (List Command)
unfolding parse_line_to_cmd
parse_all [] = pure []
parse_all (l ∷ ls) = do c ← parse_line_to_cmd l; cs ← parse_all ls; pure (c ∷ cs)

abbrev pub set_var : Bytes → Bytes → Run (Unit {0})
set_var name value w = (done tt, record w { vars = put_var name value w.vars })

unfoldable pub show_vars : Vars → Run ℤ
show_vars [] = pure (pos 0)
show_vars ((n, v) ∷ vars) = do print (shown n v); show_vars vars

-- `HOST_OS`
abbrev pub host_os : Platform → Bytes
host_os macos = codes "Macos"
host_os _ = codes "Linux"

abbrev pub get_node_config_path : Platform → Bytes → Bytes
get_node_config_path android basepath = basepath
get_node_config_path linux basepath = codes "/opt/cellframe-node"
get_node_config_path macos basepath = codes "/Library/Application Support/CellframeNode"

abbrev pub get_node_binary_path : Platform → Bytes
get_node_binary_path macos = codes "/Applications/CellframeNode.app/Contents/MacOS/"
get_node_binary_path _ = codes "/opt/cellframe-node/bin/"

-- What `init_configs` prints in front of all else.
abbrev pub install_path : Vars → Output
install_path vars =
    said (codes "Cellframe-node configs install path: " ++ get_var (codes "CONFIGS_PATH") vars)

module _ (host : Host) where
  -- `getHostName`
  abbrev pub get_host_name : Bytes
  get_host_name = elim (host.host_name) [ none ↦ codes "unknown" | some name ↦ name ]

  unfoldable pub populate_variables : Bytes → Run (Unit {0})
  unfolding put
  populate_variables basepath = do
    set_var (codes "HOST_OS") (host_os host.platform)
    set_var (codes "HOSTNAME") get_host_name
    set_var (codes "CONFIGS_PATH") (get_node_config_path host.platform basepath)
    set_var (codes "NODE_BINARY_PATH") (get_node_binary_path host.platform)

  -- `init_configs`, of a file that is there.
  abbrev pub run_setup : Bool → Bytes → Run ℤ
  run_setup dry path = do
    vars ← variables
    print (install_path vars)
    text ← contents path
    commands ← parse_lines (read_lines text)
    run_commands host dry [] commands
    pure (pos 0)

  unfoldable pub init_configs : Bool → Bytes → Run ℤ
  unfolding parse_lines run_commands read_lines get_var
  init_configs dry path =
      if is_empty path
      then (do
        print (said (codes "No setup file provided for init procedure, see --help"))
        pure (neg 1))
      else (do
        there ← file_exists path
        (if there then run_setup dry path else (do
          print (said (codes "Setup file " ++ path ++ codes " not found"))
          pure (neg 1))))

  unfoldable pub exec_commands : Bool → List Bytes → Run ℤ
  unfolding split_commands parse_all run_commands
  exec_commands dry words = do
    commands ← parse_all (split_commands [] words)
    run_commands host dry [] commands
    pure (pos 0)

  unfoldable pub run_main : List Bytes → Run ℤ
  unfolding init_configs exec_commands option_exists behind get_cmd_option
  run_main argv =
      let dry = asks argv (codes "--dryrun") (codes "-d") in
      if asks argv (codes "-i") (codes "--init")
      then init_configs dry (get_cmd_option argv (codes "--init") (codes "-i"))
      else if asks argv (codes "-e") (codes "--exec")
      then exec_commands dry
          (behind argv (if option_exists argv (codes "--exec") then codes "--exec" else codes "-e"))
      else (do print_help; pure (pos 0))

  unfoldable pub conftool_main : List Bytes → Run ℤ
  unfolding populate_variables run_main show_vars
  conftool_main argv = do
    populate_variables []
    (if asks argv (codes "-h") (codes "--help")
        then (do print_help; pure (pos 0))
        else if asks argv (codes "--vars") (codes "-s")
        then (do vars ← variables; show_vars vars)
        else (do
          (if is_empty (get_cmd_option argv (codes "--path") (codes "-p"))
              then pure tt
              else set_var (codes "CONFIGS_PATH")
                  (get_cmd_option argv (codes "--path") (codes "-p")))
          run_main argv))
