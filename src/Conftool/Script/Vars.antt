-- ===== src/Conftool/Script/Vars.antt =====
-- The variables behind a command: only `var` and a command's own reading concern them.
use cellframe_node.Prelude.{◌≡◌, refl, ◌∙◌, Bool, true, ◌&&◌, is_some, List, [], ◌∷◌, arith}
use cellframe_node.Prelude.Bytes.{Bytes, codes, same}
use cellframe_node.Conftool.World.{
  Host, World, print, print_all, noted, is_there, Platform, linux, android, macos, Run, ◌>>=◌, ◌>>◌,
  pure, Output, Listing, missing, not_directory, entries, copy_new, copy_over, rename, write_file,
}
use cellframe_node.Conftool.Frame.{Frame, Respects-bind, Respects-if}
use cellframe_node.Conftool.ConfigFile.{replace_placeholders}
use cellframe_node.Conftool.Network.{execute_network, default_net, ensure_net}
use cellframe_node.Conftool.Config.{
  ConfigCommand, execute_config, run_config, set_and_save, save_config, config_file, load_config,
  search, ensure_note, edit_file,
}
use cellframe_node.Conftool.Variables.{substitute_variables}
use cellframe_node.Conftool.Path.{get_config_path, cfg_network, config_path, general, template, on}
use cellframe_node.Conftool.Template.{execute_template, copy_template, fill_template, populate}
use cellframe_node.Conftool.Control.Macos.{
  macos_control, macos_status, load, unload, call_sec_script,
}
use cellframe_node.Conftool.Control.Posix.{control_for}
use cellframe_node.Conftool.Control.{systemctl, enable_service, linux_status, linux_control}
use cellframe_node.Conftool.Service.{
  execute_net_list, print_infos, print_found, list_networks, net_infos, execute_service, NetFilter,
}

abbrev pub vars_frame : Frame
vars_frame = record {
  Holds = λ w w'. w'.vars ≡ w.vars;
  here = λ w. refl;
  after = λ a b c h k. k ∙ h;
  printed = λ o w. refl;
}

-- A computation that leaves the variables as they are.
abbrev pub KeepsVars {ℓ} : {A : Type ℓ} → Run A → Type 0
KeepsVars m = (w : World) → (m w).1.vars ≡ w.vars

KeepsVars-infos : (infos : List (Bytes × Bytes)) → KeepsVars (print_infos infos)
unfolding print_infos
KeepsVars-infos [] w = refl
KeepsVars-infos ((name, state) ∷ rest) w =
    KeepsVars-infos rest (record w { output = Output.listed name state ∷ w.output })

KeepsVars-found : (infos : List (Bytes × Bytes)) → KeepsVars (print_found infos)
KeepsVars-found [] w = refl
KeepsVars-found (info ∷ infos) w = KeepsVars-infos (info ∷ infos) w

KeepsVars-list_networks : (filter : NetFilter) (l : Listing) → KeepsVars (list_networks filter l)
KeepsVars-list_networks filter missing w = refl
KeepsVars-list_networks filter not_directory w = refl
KeepsVars-list_networks filter (entries names) w = KeepsVars-found (net_infos filter names) w

KeepsVars-load : (path : Bytes) → KeepsVars (load_config path)
unfolding load_config
KeepsVars-load path w = ground arith

KeepsVars-search : (lines : List Bytes) (g p : Bytes) → KeepsVars (search lines g p)
KeepsVars-search lines g p w = ground arith

module _ (host : Host) (dry : Bool) where
  KeepsVars-copy_new : (from to : Bytes) → KeepsVars (copy_new host from to)
  unfolding copy_new
  KeepsVars-copy_new from to w = ground arith

  KeepsVars-copy_over : (from to : Bytes) → KeepsVars (copy_over host from to)
  unfolding copy_over
  KeepsVars-copy_over from to w = ground arith

  KeepsVars-rename : (from to : Bytes) → KeepsVars (rename host from to)
  unfolding rename
  KeepsVars-rename from to w = ground arith

  KeepsVars-save_config :
      (path : Bytes) (lines : List Bytes) → KeepsVars (save_config host dry path lines)
  unfolding save_config write_file
  KeepsVars-save_config path lines w = ground arith

  pub KeepsVars-network : (c : _) → KeepsVars (execute_network host dry c)
  unfolding execute_network default_net ensure_net copy_new rename
  KeepsVars-network c w = ground arith

  pub KeepsVars-net_list : (filter : NetFilter) → KeepsVars (execute_net_list host filter)
  unfolding execute_net_list
  KeepsVars-net_list filter w =
      KeepsVars-list_networks filter (host.listing w.files (get_config_path cfg_network w.vars)) w

  pub KeepsVars-service :
      (platform : Platform) (action : Bytes)
      → KeepsVars (execute_service (control_for host platform) action)
  unfolding execute_service control_for linux_control systemctl enable_service linux_status
      macos_control macos_status load unload call_sec_script
  KeepsVars-service linux action w = ground arith
  KeepsVars-service android action w = ground arith
  KeepsVars-service macos action w = ground arith

  KeepsVars-populate : (path : Bytes) → KeepsVars (populate host dry path)
  unfolding populate
  KeepsVars-populate path w =
      Respects-bind vars_frame (load_config path)
        (λ lines.
          save_config host dry path (replace_placeholders (substitute_variables w.vars) lines)
          >> pure true)
        (KeepsVars-load path)
        (λ lines.
          Respects-bind vars_frame
            (save_config host dry path (replace_placeholders (substitute_variables w.vars) lines))
            (λ _. pure true)
            (KeepsVars-save_config path (replace_placeholders (substitute_variables w.vars) lines))
            (λ _ w'. refl))
        w

  KeepsVars-copy_template :
      (action from to : Bytes) → KeepsVars (copy_template host dry action from to)
  unfolding copy_new copy_over
  KeepsVars-copy_template action from to w = ground arith

  KeepsVars-fill_template :
      (action name from to : Bytes) → KeepsVars (fill_template host dry action name from to)
  unfolding fill_template
  KeepsVars-fill_template action name from to w =
      Respects-if vars_frame (same action (codes "default") && is_some (w.files to))
        (print (noted (is_there name)) >> pure true)
        (copy_template host dry action from to >> populate host dry to) (λ w'. refl)
        (Respects-bind vars_frame (copy_template host dry action from to)
          (λ _. populate host dry to) (KeepsVars-copy_template action from to)
          (λ _. KeepsVars-populate to))
        w

  pub KeepsVars-template : (c : _) → KeepsVars (execute_template host dry c)
  unfolding execute_template
  KeepsVars-template c w =
      KeepsVars-fill_template c.action c.cfg_name (config_path c.cfg_name general template w.vars)
        (config_path c.cfg_name general on w.vars) w

  KeepsVars-run_config :
      (path : Bytes) (lines : List Bytes) (r : _) (c : ConfigCommand) (value : Bytes)
      → KeepsVars (run_config host dry path lines r c value)
  unfolding run_config set_and_save save_config write_file
  KeepsVars-run_config path lines r c value w = ground arith

  KeepsVars-edit_file :
      (c : ConfigCommand) (value path : Bytes) → KeepsVars (edit_file host dry c value path)
  KeepsVars-edit_file c value path =
      Respects-bind vars_frame (load_config path) announced (KeepsVars-load path) (λ lines.
        Respects-bind vars_frame (print_all (ensure_note c value)) (λ _. searched lines) (λ w. refl)
          (λ _.
            Respects-bind vars_frame (search lines c.group c.param)
              (λ r. run_config host dry path lines r c value)
              (KeepsVars-search lines c.group c.param)
              (λ r. KeepsVars-run_config path lines r c value)))
    where
      searched : List Bytes → Run Bool
      searched lines =
          search lines c.group c.param >>= λ r. run_config host dry path lines r c value

      announced : List Bytes → Run Bool
      announced lines = print_all (ensure_note c value) >> searched lines

  pub KeepsVars-config : (c : ConfigCommand) → KeepsVars (execute_config host dry c)
  unfolding execute_config config_file
  KeepsVars-config c w =
      Respects-bind vars_frame (config_file host c.cfg_name)
        (edit_file host dry c (substitute_variables w.vars c.value)) (λ w'. refl)
        (KeepsVars-edit_file c (substitute_variables w.vars c.value)) w
