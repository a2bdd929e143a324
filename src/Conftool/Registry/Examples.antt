-- ===== src/Conftool/Registry/Examples.antt =====
-- A registry with the folders of the node.
use cellframe_node.Prelude.{◌≡◌, refl, true, none, some, [], ◌∷◌, ◌++◌, if◌then◌else◌, pos}
use cellframe_node.Prelude.Bytes.{Bytes, codes, same}
use cellframe_node.Conftool.World.{linux, Host, World, missing, elevated, undefined, ◌>>◌}
use cellframe_node.Conftool.Variables.{put, get_var}
use cellframe_node.Conftool.Control.Windows.{
  Windows, launched, run_shell_admin, shell_ok, create_task,
}
use cellframe_node.Conftool.Registry.{
  Registry, shell_folders, node_key, terminated, get_string_reg_key, read_path, populate_windows,
}
use cellframe_node.Conftool.Registry.Registered.{stored}

abbrev documents : Bytes
documents = codes "C:\\Users\\Public\\Documents"

abbrev folder : Bytes
folder = codes "C:\\Program Files\\cellframe-node"

-- The key 1 has the shared folders, the key 2 has the node's.
abbrev registry : Registry
registry = record {
  open_key =
      λ key. if same key shell_folders then some 1 else if same key node_key then some 2 else none;
  query_value = λ key name size.
      if same name (codes "Common Documents")
      then (pos 0, stored documents)
      else if same name (codes "Path")
      then (pos 0, stored folder)
      else (pos 2, []);
  path_string = λ path. path;
}

abbrev windows : Windows
windows = record {
  shell_execute = λ output app cmd. launched;
  exit_code = λ output. some 0;
  processes = λ output. [];
  tcsicmp = λ a b. same a b;
  joined = λ a b. a ++ b'\\' ∷ b;
}

abbrev host : Host
host = record {
  platform = linux;
  may_write = λ path. true;
  system = λ output cmd. true;
  listing = λ files path. missing;
  host_name = none;
}

abbrev world : World
world = record { files = λ path. none; vars = []; output = [] }

create_task_runs :
    ((populate_windows registry windows host >> create_task windows) world).1.output
    ≡ elevated (codes "schtasks.exe") (
        codes
          "/Create /F /RL highest /SC onlogon /TR \"'C:\\Program Files\\cellframe-node\\cellframe-node.exe'\" /TN CellframeNode")
      ∷ []
unfolding populate_windows create_task shell_ok run_shell_admin get_string_reg_key terminated
    read_path put get_var same
create_task_runs = refl

no_key_runs :
    (populate_windows (record registry { open_key = λ key. none }) windows host world).0 ≡ undefined
unfolding populate_windows read_path
no_key_runs = refl
