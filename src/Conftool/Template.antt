-- ===== src/Conftool/Template.antt =====
-- `fromtemplate NAME default|ensure` (conftool/commands/FromTemplateCommand.cpp).
pub mod Filled
use cellframe_node.Prelude.{Bool, true, not, ◌&&◌, List, ◌∷◌, if◌then◌else◌}
use cellframe_node.Prelude.Bytes.{Bytes, codes, same}
use cellframe_node.Conftool.ConfigFile.{replace_placeholders}
use cellframe_node.Conftool.World.{
  Host, Run, print, noted, is_there, fills, ◌>>=◌, ◌>>◌, pure, throw, throw_if, variables,
  file_exists, copy_new, copy_over,
}
use cellframe_node.Conftool.Variables.{substitute_variables}
use cellframe_node.Conftool.Path.{general, on, template, config_path}
use cellframe_node.Conftool.Config.{is_node, load_config, save_config}

-- Any word is taken for an action.
pub record TemplateCommand : Type 0 where
  pub cfg_name : Bytes
  pub action : Bytes

unfoldable pub new_template : List Bytes → Run TemplateCommand
new_template (_ ∷ name ∷ word ∷ _) = do
  vars ← variables
  known ← file_exists (config_path name general template vars)
  throw_if (not (is_node name) && not known)
  pure (record { cfg_name = name; action = word })
new_template _ = throw

module _ (host : Host) where
  -- The lines of the file with the variables in place.
  unfoldable pub populate : Bool → Bytes → Run Bool
  unfolding load_config save_config replace_placeholders
  populate dry path = do
    vars ← variables
    lines ← load_config path
    save_config host dry path (replace_placeholders (substitute_variables vars) lines)
    pure true

  -- The copy of the template, which a dry run only announces.
  abbrev pub copy_template : Bool → Bytes → Bytes → Bytes → Run (Unit {0})
  copy_template dry action from to =
      if same action (codes "default")
      then (do print (noted (fills from to)); (if dry then pure tt else copy_new host from to))
      else if same action (codes "ensure")
      then (do print (noted (fills from to)); (if dry then pure tt else copy_over host from to))
      else pure tt

  unfoldable pub fill_template : Bool → Bytes → Bytes → Bytes → Bytes → Run Bool
  unfolding populate
  fill_template dry action name from to = do
    there ← file_exists to
    (if same action (codes "default") && there
        then (do print (noted (is_there name)); pure true)
        else (do copy_template dry action from to; populate dry to))

  unfoldable pub execute_template : Bool → TemplateCommand → Run Bool
  unfolding fill_template
  execute_template dry c = do
    vars ← variables
    fill_template dry c.action c.cfg_name (config_path c.cfg_name general template vars)
        (config_path c.cfg_name general on vars)
