-- ===== src/Conftool/Registry.antt =====
-- The lookups of conftool/main.cpp in the registry, and its paths in a build for Windows.
pub mod Registered
mod Examples
use cellframe_node.Prelude.{
  ℕ, ◌+◌, ◌*◌, ◌%◌, Bool, true, false, not, Option, none, some, List, [], ◌∷◌, map, ◌==◌,
  if◌then◌else◌, ℤ, pos, is_zero,
}
use cellframe_node.Prelude.Bytes.{Bytes, codes}
use cellframe_node.Conftool.World.{
  Host, Run, Result, done, raised, undefined, ◌>>=◌, ◌>>◌, undefined_behaviour,
}
use cellframe_node.Conftool.Variables.{put}
use cellframe_node.Conftool.Control.Windows.{Windows}
use cellframe_node.Conftool.Main.{set_var, get_host_name}

-- What the system answers; keys are below HKEY_LOCAL_MACHINE.
pub record Registry : Type 0 where
  -- `RegOpenKeyExW` for reading: the handle, if it stores one
  pub open_key : Bytes → Option ℕ
  -- `RegQueryValueExW` of a handle, a name and the size of the buffer: the error, and the bytes that
  -- it stores from the front of the buffer on
  pub query_value : ℕ → Bytes → ℕ → ℤ × List ℕ
  -- `path{…}.string()`
  pub path_string : Bytes → Bytes

-- The bytes of a DWORD that was 0, the lowest first.
abbrev pub dword_of : List ℕ → ℕ
dword_of [] = 0
dword_of (b ∷ bs) = b + 256 * dword_of bs

-- The whole `WCHAR`s among the bytes of a buffer.
abbrev pub wide_chars : List ℕ → List ℕ
wide_chars [] = []
wide_chars (_ ∷ []) = []
wide_chars (low ∷ high ∷ bs) = (low + 256 * high) ∷ wide_chars bs

-- The text of a buffer up to its null. Without one the code reads on behind what was stored.
unfoldable pub terminated : List ℕ → Option (List ℕ)
terminated [] = none
terminated (c ∷ cs) =
    let rest = terminated cs in
    if c == 0 then some [] else elim rest [ none ↦ none | some text ↦ some (c ∷ text) ]

-- `std::string(path.begin(), path.end())`
abbrev pub narrow : List ℕ → Bytes
narrow = map (λ c. c % 256)

abbrev pub shell_folders : Bytes
shell_folders = codes "SOFTWARE\\Microsoft\\Windows\\CurrentVersion\\Explorer\\Shell Folders"

abbrev pub node_key : Bytes
node_key = codes "SOFTWARE\\cellframe-node\\"

module _ (registry : Registry) where
  -- `GetDWORDRegKey`: the result and `nValue`.
  abbrev pub get_dword_reg_key : ℕ → Bytes → ℕ → ℤ × ℕ
  get_dword_reg_key key name default =
      let (error, stored) = registry.query_value key name 4 in
      (error, if is_zero error then dword_of stored else default)

  -- `GetBoolRegKey`: the result and `bValue`, given what that was.
  abbrev pub get_bool_reg_key : ℕ → Bytes → Bool → Bool → ℤ × Bool
  get_bool_reg_key key name before default =
      let (error, n) = get_dword_reg_key key name (if default then 1 else 0) in
      (error, if is_zero error then not (n == 0) else before)

  -- `GetStringRegKey`: the result and `strValue`.
  unfoldable pub get_string_reg_key : ℕ → Bytes → List ℕ → Result (ℤ × List ℕ)
  unfolding terminated
  get_string_reg_key key name default =
      let (error, stored) = registry.query_value key name 1024 in
      if is_zero error
      then elim (terminated (wide_chars stored)) [
        | none ↦ undefined
        | some text ↦ done (error, text)
      ]
      else done (error, default)

  abbrev pub narrowed : Result (ℤ × List ℕ) → Result Bytes
  narrowed (done (_, text)) = done (narrow text)
  narrowed raised = raised
  narrowed undefined = undefined

  abbrev pub read_with : Bytes → Option ℕ → Run Bytes
  read_with name none w = (undefined, w)
  read_with name (some key) w = (narrowed (get_string_reg_key key name []), w)

  -- The value of this name in a key. Whether the key was opened is not looked at: its handle has no
  -- value then.
  unfoldable pub read_path : Bytes → Bytes → Run Bytes
  unfolding get_string_reg_key
  read_path folder name = read_with name (registry.open_key folder)

module _ (registry : Registry) (windows : Windows) where
  -- `getNodeConfigPath`
  abbrev pub windows_config_path : Run Bytes
  windows_config_path = do
    path ← read_path registry shell_folders (codes "Common Documents")
    (λ w. (done (windows.joined path (codes "cellframe-node")), w))

  -- `getNodeBinaryPath`
  abbrev pub windows_binary_path : Run Bytes
  windows_binary_path = do
    path ← read_path registry node_key (codes "Path")
    (λ w. (done (registry.path_string path), w))

  -- `populate_variables`, with `HOST_OS` of conftool/build_config.h.
  unfoldable pub populate_windows : Host → Run (Unit {0})
  unfolding read_path put
  populate_windows host = do
    set_var (codes "HOST_OS") (codes "Windows")
    set_var (codes "HOSTNAME") (get_host_name host)
    configs ← windows_config_path
    set_var (codes "CONFIGS_PATH") configs
    binary ← windows_binary_path
    set_var (codes "NODE_BINARY_PATH") binary
