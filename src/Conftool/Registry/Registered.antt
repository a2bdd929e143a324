-- ===== src/Conftool/Registry/Registered.antt =====
-- What `service enable` on Windows registers, behind the variables from the registry.
use cellframe_node.Prelude.{
  ℕ, ◌+◌, ◌*◌, ◌≡◌, refl, ◌∙◌, ap, Bool, true, false, ◌&&◌, not, some, List, [], ◌∷◌, ◌++◌, arith,
  ◌==◌, ltb, if◌then◌else◌, pos,
}
use cellframe_node.Prelude.Bytes.{Bytes, codes, same, same_iff}
use cellframe_node.Conftool.World.{Host, Vars, World, done, and_then, ◌>>◌}
use cellframe_node.Conftool.Variables.{put, get_var}
use cellframe_node.Conftool.Main.{get_host_name}
use cellframe_node.Conftool.Control.Windows.{Windows, shell_ok, create_task, node_exe}
use cellframe_node.Conftool.Registry.{
  Registry, wide_chars, terminated, narrow, get_string_reg_key, read_with, read_path, shell_folders,
  node_key, populate_windows,
}

-- The characters have one byte each, and none is null.
abbrev pub is_text : Bytes → Bool
is_text [] = true
is_text (c ∷ cs) = not (c == 0) && ltb c 256 && is_text cs

-- The bytes that the registry has for a text, with its null.
abbrev pub stored : Bytes → List ℕ
stored [] = 0 ∷ 0 ∷ []
stored (c ∷ cs) = c ∷ 0 ∷ stored cs

low_char : (c : ℕ) → c + 256 * 0 ≡ c
low_char c = omega arith

not_null : (c : ℕ) → not (c == 0) ≡ true → (c == 0) ≡ false
not_null c h = ground arith

terminated-stored :
    (text : Bytes) → is_text text ≡ true → terminated (wide_chars (stored text)) ≡ some text
unfolding terminated
terminated-stored [] h = refl
terminated-stored (c ∷ cs) h =
    rw (low_char c, not_null c (ground arith), terminated-stored cs (ground arith))
      (ap (λ x. some (x ∷ cs)) (low_char c))

narrow_text : (text : Bytes) → is_text text ≡ true → narrow text ≡ text
narrow_text [] h = refl
narrow_text (c ∷ cs) h = ground (arith, narrow_text cs)

get_var-put :
    (key value name : Bytes) (vars : Vars)
    → get_var name (put key value vars) ≡ (if same key name then value else get_var name vars)
unfolding get_var put
get_var-put key value name [] = refl
get_var-put key value name ((k, v) ∷ rest) =
    ground
      (arith, get_var-put key value name rest, same_iff k key, same_iff k name, same_iff key name)

module _ (registry : Registry) (windows : Windows) (host : Host) (w : World) where
  -- `variable_storage` behind `populate_variables`.
  abbrev pub populated : Bytes → Bytes → Vars
  populated documents folder = put (codes "NODE_BINARY_PATH") (registry.path_string folder) (
      put (codes "CONFIGS_PATH") (windows.joined documents (codes "cellframe-node")) (
        put (codes "HOSTNAME") (get_host_name host)
          (put (codes "HOST_OS") (codes "Windows") w.vars)))

  abbrev pub Holds : Bytes → Bytes → Bytes → Type 0
  Holds folder name text =
      (key : ℕ) × (registry.open_key folder ≡ some key)
      × (registry.query_value key name 1024 ≡ (pos 0, stored text))
      × (is_text text ≡ true)

  read_path-Holds :
      (folder name text : Bytes) (w' : World)
      → Holds folder name text
      → read_path registry folder name w' ≡ (done text, w')
  unfolding read_path get_string_reg_key
  read_path-Holds folder name text w' (key, opened, queried, ok) =
      ap (λ o. read_with registry name o w') opened
      ∙ rw queried (rw (terminated-stored text ok) (ap (λ t. (done t, w')) (narrow_text text ok)))

  populate_windows-Holds :
      (documents folder : Bytes)
      → Holds shell_folders (codes "Common Documents") documents
      → Holds node_key (codes "Path") folder
      → populate_windows registry windows host w
        ≡ (done tt, record w { vars = populated documents folder })
  unfolding populate_windows
  populate_windows-Holds documents folder docs path =
      ap (and_then _) (
        ap (and_then _) (read_path-Holds shell_folders (codes "Common Documents") documents _ docs))
      ∙ ap (and_then _) (ap (and_then _) (read_path-Holds node_key (codes "Path") folder _ path))

  -- On Windows `service enable`, behind the reading of the variables, asks the system to register for
  -- every logon the program cellframe-node.exe in the folder that the registry has for the node, and
  -- answers as that request does. The registry has both folders as texts of one byte a character, with
  -- their null.
  pub create_task-populate_windows :
      (documents folder : Bytes)
      → Holds shell_folders (codes "Common Documents") documents
      → Holds node_key (codes "Path") folder
      → (populate_windows registry windows host >> create_task windows) w
        ≡ shell_ok windows
            (codes "schtasks.exe")
            (codes "/Create /F /RL highest /SC onlogon /TR \"'"
              ++ windows.joined (registry.path_string folder) node_exe
              ++ codes "'\" /TN CellframeNode")
            (record w { vars = populated documents folder })
  unfolding create_task same
  create_task-populate_windows documents folder docs path =
      rw
        (
          populate_windows-Holds documents folder docs path,
          get_var-put (codes "NODE_BINARY_PATH") (registry.path_string folder)
              (codes "NODE_BINARY_PATH")
              (put (codes "CONFIGS_PATH") (windows.joined documents (codes "cellframe-node")) (
                put (codes "HOSTNAME") (get_host_name host)
                  (put (codes "HOST_OS") (codes "Windows") w.vars))),
        )
        refl
