-- ===== src/Conftool/Script/Dry.antt =====
-- A dry run of conftool changes no file.
use cellframe_node.Prelude.{Bool, ◌≡◌, refl, ◌∙◌, true, List, [], ◌∷◌, arith}
use cellframe_node.Prelude.Bytes.{Bytes}
use cellframe_node.Conftool.World.{
  Host, World, print_all, ◌>>◌, Platform, linux, android, macos, Run, Output, Listing, ◌>>=◌,
  missing, not_directory, entries,
}
use cellframe_node.Conftool.Frame.{Frame, Respects-bind}
use cellframe_node.Conftool.Network.{execute_network, default_net, ensure_net}
use cellframe_node.Conftool.Config.{
  ConfigCommand, execute_config, run_config, set_and_save, save_config, config_file, load_config,
  search, ensure_note, edit_file,
}
use cellframe_node.Conftool.Variables.{substitute_variables}
use cellframe_node.Conftool.Path.{get_config_path, cfg_network, config_path, general, template, on}
use cellframe_node.Conftool.Template.{execute_template, fill_template, populate}
use cellframe_node.Conftool.Service.{
  execute_net_list, print_infos, print_found, list_networks, net_infos, execute_service, NetFilter,
}
use cellframe_node.Conftool.Control.Macos.{
  macos_control, macos_status, load, unload, call_sec_script,
}
use cellframe_node.Conftool.Control.Posix.{control_for}
use cellframe_node.Conftool.Control.{systemctl, enable_service, linux_status, linux_control}
use cellframe_node.Conftool.Condition.{Condition, execute_condition, execute_variable}
use cellframe_node.Conftool.Script.{
  Command, network, net_list, config, fromtemplate, service, var, if_open, endif, execute,
}

-- A computation that leaves the files as they are.
abbrev pub Keeps {ℓ} : {A : Type ℓ} → Run A → Type 0
Keeps m = (w : World) → (m w).1.files ≡ w.files

abbrev pub files_frame : Frame
files_frame = record {
  Holds = λ w w'. w'.files ≡ w.files;
  here = λ w. refl;
  after = λ a b c h k. k ∙ h;
  printed = λ o w. refl;
}

Keeps-condition : (c : Condition) → Keeps (execute_condition c)
unfolding execute_condition
Keeps-condition c w = refl

Keeps-infos : (infos : List (Bytes × Bytes)) → Keeps (print_infos infos)
unfolding print_infos
Keeps-infos [] w = refl
Keeps-infos ((name, state) ∷ rest) w =
    Keeps-infos rest (record w { output = Output.listed name state ∷ w.output })

Keeps-load : (path : Bytes) → Keeps (load_config path)
unfolding load_config
Keeps-load path w = ground arith

Keeps-search : (lines : List Bytes) (g p : Bytes) → Keeps (search lines g p)
Keeps-search lines g p w = ground arith

Keeps-found : (infos : List (Bytes × Bytes)) → Keeps (print_found infos)
Keeps-found [] w = refl
Keeps-found (info ∷ infos) w = Keeps-infos (info ∷ infos) w

Keeps-list_networks : (filter : NetFilter) (l : Listing) → Keeps (list_networks filter l)
Keeps-list_networks filter missing w = refl
Keeps-list_networks filter not_directory w = refl
Keeps-list_networks filter (entries names) w = Keeps-found (net_infos filter names) w

module _ (host : Host) where
  Keeps-network : (c : _) → Keeps (execute_network host true c)
  unfolding execute_network default_net ensure_net
  Keeps-network c w = ground arith

  Keeps-net_list : (filter : NetFilter) → Keeps (execute_net_list host filter)
  unfolding execute_net_list
  Keeps-net_list filter w =
      Keeps-list_networks filter (host.listing w.files (get_config_path cfg_network w.vars)) w

  Keeps-service :
      (platform : Platform) (action : Bytes)
      → Keeps (execute_service (control_for host platform) action)
  unfolding execute_service control_for linux_control systemctl enable_service linux_status
      macos_control macos_status load unload call_sec_script
  Keeps-service linux action w = ground arith
  Keeps-service android action w = ground arith
  Keeps-service macos action w = ground arith

  Keeps-populate : (path : Bytes) → Keeps (populate host true path)
  unfolding populate save_config
  Keeps-populate path w = ground (arith, Keeps-load path w)

  Keeps-fill_template :
      (action name from to : Bytes) → Keeps (fill_template host true action name from to)
  unfolding fill_template
  Keeps-fill_template action name from to w = ground (arith, Keeps-populate to w)

  Keeps-template : (c : _) → Keeps (execute_template host true c)
  unfolding execute_template
  Keeps-template c w =
      Keeps-fill_template c.action c.cfg_name (config_path c.cfg_name general template w.vars)
        (config_path c.cfg_name general on w.vars) w

  Keeps-config_file : (name : Bytes) → Keeps (config_file host name)
  unfolding config_file
  Keeps-config_file name w = refl

  Keeps-run_config :
      (path : Bytes) (lines : List Bytes) (r : _) (c : ConfigCommand) (value : Bytes)
      → Keeps (run_config host true path lines r c value)
  unfolding run_config set_and_save save_config
  Keeps-run_config path lines r c value w = ground arith

  Keeps-edit_file :
      (c : ConfigCommand) (value path : Bytes) → Keeps (edit_file host true c value path)
  Keeps-edit_file c value path =
      Respects-bind files_frame (load_config path) announced (Keeps-load path) (λ lines.
        Respects-bind files_frame (print_all (ensure_note c value)) (λ _. searched lines)
          (λ w. refl)
          (λ _.
            Respects-bind files_frame (search lines c.group c.param)
              (λ r. run_config host true path lines r c value) (Keeps-search lines c.group c.param)
              (λ r. Keeps-run_config path lines r c value)))
    where
      searched : List Bytes → Run Bool
      searched lines =
          search lines c.group c.param >>= λ r. run_config host true path lines r c value

      announced : List Bytes → Run Bool
      announced lines = print_all (ensure_note c value) >> searched lines

  Keeps-config : (c : ConfigCommand) → Keeps (execute_config host true c)
  unfolding execute_config
  Keeps-config c w =
      Respects-bind files_frame (config_file host c.cfg_name)
        (edit_file host true c (substitute_variables w.vars c.value)) (Keeps-config_file c.cfg_name)
        (Keeps-edit_file c (substitute_variables w.vars c.value)) w

  pub Keeps-execute : (c : Command) → Keeps (execute host true c)
  unfolding execute execute_variable
  Keeps-execute (network c) w = Keeps-network c w
  Keeps-execute (net_list filter) w = Keeps-net_list filter w
  Keeps-execute (config c) w = Keeps-config c w
  Keeps-execute (fromtemplate c) w = Keeps-template c w
  Keeps-execute (service action) w = Keeps-service host.platform action w
  Keeps-execute (var c) w = refl
  Keeps-execute (if_open c) w = Keeps-condition c w
  Keeps-execute endif w = refl
