-- ===== src/Conftool/Config.antt =====
-- `config NAME SECTION PARAM default|ensure|get VALUE` (conftool/commands/ConfigCommand.cpp), and
-- the loading and saving of a configuration file.
pub mod Edit
pub mod Overwritten
use cellframe_node.Prelude.{
  ℕ, Bool, true, false, not, ◌&&◌, ◌||◌, Option, none, some, List, [], ◌∷◌, ◌==◌, if◌then◌else◌,
}
use cellframe_node.Prelude.Bytes.{Bytes, codes, same, is_empty}
use cellframe_node.Conftool.ConfigFile.{
  Found, found, absent, exists, edit, written, read_lines, replace_placeholders,
}
use cellframe_node.Conftool.World.{
  Host, Run, World, done, ◌>>=◌, ◌>>◌, pure, throw, throw_if, undefined_behaviour, Output, noted,
  takes_enabled, keeps_value, sets, print_all, print, variables, file_exists, contents, write_file,
  got, dumped,
}
use cellframe_node.Conftool.Variables.{substitute_variables}
use cellframe_node.Conftool.Path.{general, on, off, template, config_path}

pub data ConfigAction : Type 0 where
  default ensure get : ConfigAction

pub record ConfigCommand : Type 0 where
  pub cfg_name : Bytes
  pub group : Bytes
  pub param : Bytes
  pub action : ConfigAction
  pub value : Bytes

abbrev pub is_node : Bytes → Bool
is_node name = same name (codes "cellframe-node")

-- One of `allowed_actions`.
unfoldable pub parse_config_action : Bytes → Run ConfigAction
parse_config_action word =
    if same word (codes "default")
    then pure default
    else if same word (codes "ensure")
    then pure ensure
    else if same word (codes "get")
    then pure get
    else throw

abbrev pub first_or_empty : List Bytes → Bytes
first_or_empty [] = []
first_or_empty (w ∷ _) = w

-- The constructor, on the tokens.
unfoldable pub new_config : List Bytes → Run ConfigCommand
unfolding parse_config_action
new_config (_ ∷ name ∷ group ∷ param ∷ word ∷ rest) = do
  vars ← variables
  known ← file_exists (config_path name general template vars)
  throw_if (not (is_node name) && not known)
  action ← parse_config_action word
  pure (record {
    cfg_name = name;
    group = group;
    param = param;
    action = action;
    value = first_or_empty rest;
  })
new_config _ = throw

abbrev pub ends_in_brace : Bytes → Bool
ends_in_brace [] = false
ends_in_brace (c ∷ []) = c == b'}'
ends_in_brace (c ∷ d ∷ cs) = ends_in_brace (d ∷ cs)

unfoldable pub is_placeholder : Bytes → Bool
is_placeholder [] = true
is_placeholder (c ∷ cs) = c == b'$' && ends_in_brace (c ∷ cs)

-- The constructor of `CellframeConfigurationFile`.
unfoldable pub load_config : Bytes → Run (List Bytes)
unfolding read_lines
load_config path = do text ← contents path; pure (read_lines text)

abbrev pub set_note : ConfigCommand → Bytes → Output
set_note c value = noted (sets c.cfg_name c.group c.param value)

-- What the search of `exists` ends with, as a step of a command.
abbrev pub search : List Bytes → Bytes → Bytes → Run Found
search lines g p = elim (exists lines g p) [
  | found v i ↦ pure (found v i)
  | absent there i ↦ pure (absent there i)
  | Found.thrown ↦ throw
  | Found.crashed ↦ undefined_behaviour
]

-- What is said where a network has both files.
abbrev pub both_note : Bytes → Bool → List Output
both_note name both = if not (is_node name) && both then noted (takes_enabled name) ∷ [] else []

-- `ensure` says what it sets before the file is searched.
abbrev pub ensure_note : ConfigCommand → Bytes → List Output
ensure_note c value = elim (c.action) [ ensure ↦ set_note c value ∷ [] | _ ↦ [] ]

module _ (host : Host) where
  -- `save`: a dry run only prints the lines.
  unfoldable pub save_config : Bool → Bytes → List Bytes → Run (Unit {0})
  unfolding write_file written
  save_config dry path lines =
      if dry then print (dumped lines) else write_file host path (written lines)

  unfoldable pub set_and_save : Bool → Bytes → List Bytes → Found → ConfigCommand → Bytes → Run Bool
  unfolding edit save_config
  set_and_save dry path lines r c value = do
    save_config dry path (edit c.group c.param value r lines)
    pure true

  -- The value is kept if there is one that is no placeholder.
  abbrev pub keeps : Found → Bool
  keeps (found v i) = not (is_placeholder v)
  keeps _ = false

  abbrev pub value_of : Found → Bytes
  value_of (found v i) = v
  value_of _ = []

  unfoldable pub run_config : Bool → Bytes → List Bytes → Found → ConfigCommand → Bytes → Run Bool
  unfolding set_and_save is_placeholder
  run_config dry path lines r c value = elim (c.action) [
    | default ↦
        (if keeps r
          then (do print (noted (keeps_value c.cfg_name c.group c.param (value_of r))); pure true)
          else (do print (set_note c value); set_and_save dry path lines r c value))
    | ensure ↦ set_and_save dry path lines r c value
    | get ↦ (do print (got c.cfg_name c.group c.param (value_of r)); pure true)
  ]

  -- Which file is changed: that of the node, or the network's that is there, rather the enabled.
  unfoldable pub config_file : Bytes → Run Bytes
  config_file name = do
    vars ← variables
    let on_path = config_path name general on vars
    let off_path = config_path name general off vars
    enabled ← file_exists on_path
    disabled ← file_exists off_path
    print_all (both_note name (enabled && disabled))
    pure (if not (is_node name) && (disabled && not enabled) then off_path else on_path)

  abbrev pub edit_file : Bool → ConfigCommand → Bytes → Bytes → Run Bool
  edit_file dry c value path = do
    lines ← load_config path
    print_all (ensure_note c value)
    r ← search lines c.group c.param
    run_config dry path lines r c value

  unfoldable pub execute_config : Bool → ConfigCommand → Run Bool
  unfolding run_config config_file load_config
  execute_config dry c = do
    vars ← variables
    path ← config_file c.cfg_name
    edit_file dry c (substitute_variables vars c.value) path
