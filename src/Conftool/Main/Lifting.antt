-- ===== src/Conftool/Main/Lifting.antt =====
-- What every command respects, and a variable's new value does, `main` of conftool respects.
use cellframe_node.Prelude.{
  ◌++◌, ◌≡◌, refl, sym, subst, Bool, List, [], ◌∷◌, arith, if◌then◌else◌, is_some, ℤ, pos, neg,
}
use cellframe_node.Prelude.Bytes.{Bytes, codes, is_empty}
use cellframe_node.Conftool.World.{
  Host, World, Vars, Run, ◌>>=◌, ◌>>◌, pure, Output, said, shown, helped, print, variables,
  contents,
}
use cellframe_node.Conftool.Frame.{
  Frame, Respects, Reads, Respects-bind, Respects-Reads, Respects-if,
}
use cellframe_node.Conftool.ConfigFile.{read_lines}
use cellframe_node.Conftool.Variables.{put_var}
use cellframe_node.Conftool.Script.{Command, execute, parse_line_to_cmd, parse_lines, run_commands}
use cellframe_node.Conftool.Script.Lifting.{Respects-run_commands}
use cellframe_node.Conftool.Script.Reading.{Reads-bind, Reads-parse_lines, Reads-parse_line_to_cmd}
use cellframe_node.Conftool.Main.Help.{help_text, print_help}
use cellframe_node.Conftool.Main.{
  install_path, run_setup, host_os, get_node_binary_path, asks, behind, option_exists,
  get_cmd_option, split_commands, parse_all, set_var, show_vars, populate_variables, get_host_name,
  get_node_config_path, init_configs, exec_commands, run_main, conftool_main,
}

Reads-parse_all : (ls : List Bytes) → Reads (parse_all ls)
unfolding parse_all
Reads-parse_all [] w = refl
Reads-parse_all (l ∷ ls) w =
    Reads-bind (parse_line_to_cmd l) (λ c. parse_all ls >>= λ cs. pure (c ∷ cs))
      (Reads-parse_line_to_cmd l)
      (λ c. Reads-bind (parse_all ls) (λ cs. pure (c ∷ cs)) (Reads-parse_all ls) (λ cs w. refl)) w

Reads-contents : (path : Bytes) → Reads (contents path)
Reads-contents path w = ground arith

abbrev words : List Bytes → List Bytes
words argv =
    behind argv (if option_exists argv (codes "--exec") then codes "--exec" else codes "-e")

module _ (frame : Frame) where
  Respects-show_vars : (vars : Vars) → Respects frame (show_vars vars)
  unfolding show_vars
  Respects-show_vars [] w = frame.here w
  Respects-show_vars ((n, v) ∷ vars) w =
      Respects-bind frame (print (shown n v)) (λ _. show_vars vars) (frame.printed (shown n v))
        (λ _. Respects-show_vars vars) w

  Respects-help : Respects {0} frame {A = ℤ} (print_help >> pure (pos 0))
  Respects-help =
      Respects-bind frame (print_help) (λ _. pure (pos 0)) (frame.printed (helped help_text))
        (λ _ w. frame.here w)

  module _ (host : Host) (dry : Bool)
      (each : (c : Command) → Respects frame (execute host dry c)) where
    -- Parse some commands and run them.
    abbrev parse_and_run : Run (List Command) → Run ℤ
    parse_and_run m = m >>= λ cs. run_commands host dry [] cs >> pure (pos 0)

    Respects-parsed : (m : Run (List Command)) → Reads m → Respects frame (parse_and_run m)
    Respects-parsed m h =
        Respects-bind frame m (λ cs. run_commands host dry [] cs >> pure (pos 0))
          (Respects-Reads frame m h)
          (λ cs.
            Respects-bind frame (run_commands host dry [] cs) (λ _. pure (pos 0))
              (Respects-run_commands frame host dry each cs []) (λ _ w. frame.here w))

    Respects-refused : (o : Output) → Respects {0} frame {A = ℤ} (print o >> pure (neg 1))
    Respects-refused o =
        Respects-bind frame (print o) (λ _. pure (neg 1)) (frame.printed o) (λ _ w. frame.here w)

    Respects-run_setup : (path : Bytes) → Respects frame (run_setup host dry path)
    Respects-run_setup path w =
        Respects-bind frame (print (install_path w.vars)) (λ _. read)
          (frame.printed (install_path w.vars))
          (λ _.
            Respects-bind frame (contents path)
              (λ text. parse_and_run (parse_lines (read_lines text)))
              (Respects-Reads frame (contents path) (Reads-contents path))
              (λ text.
                Respects-parsed (parse_lines (read_lines text))
                  (Reads-parse_lines (read_lines text))))
          w
      where
        read : Run ℤ
        read = contents path >>= λ text. parse_and_run (parse_lines (read_lines text))

    Respects-init : (path : Bytes) → Respects frame (init_configs host dry path)
    unfolding init_configs
    Respects-init path =
        Respects-if frame (is_empty path) (print no_file >> pure (neg 1)) _
          (Respects-refused no_file)
          (λ w.
            Respects-if frame (is_some (w.files path)) (run_setup host dry path)
              (print not_found >> pure (neg 1)) (Respects-run_setup path)
              (Respects-refused not_found) w)
      where
        no_file : Output
        no_file = said (codes "No setup file provided for init procedure, see --help")

        not_found : Output
        not_found = said (codes "Setup file " ++ path ++ codes " not found")

    Respects-exec : (words : List Bytes) → Respects frame (exec_commands host dry words)
    unfolding exec_commands
    Respects-exec words w =
        Respects-parsed (parse_all (split_commands [] words))
          (Reads-parse_all (split_commands [] words)) w

    Respects-run_main :
        (argv : List Bytes)
        → asks argv (codes "--dryrun") (codes "-d") ≡ dry
        → Respects frame (run_main host argv)
    unfolding run_main
    Respects-run_main argv h =
        Respects-if frame (asks argv (codes "-i") (codes "--init")) _ _
          (subst
            (λ d.
              Respects frame
                (init_configs host d (get_cmd_option argv (codes "--init") (codes "-i"))))
            (sym h) (Respects-init (get_cmd_option argv (codes "--init") (codes "-i"))))
          (Respects-if frame (asks argv (codes "-e") (codes "--exec")) _ _
            (subst (λ d. Respects frame (exec_commands host d (words argv))) (sym h)
              (Respects-exec (words argv)))
            Respects-help)

    module _
        (set : (name value : Bytes) (w : World)
          → frame.Holds w (record w { vars = put_var name value w.vars })) where
      Respects-then :
          (name value : Bytes) (m : Run (Unit {0}))
          → Respects frame m
          → Respects frame (set_var name value >> m)
      Respects-then name value m h =
          Respects-bind frame (set_var name value) (λ _. m) (set name value) (λ _. h)

      Respects-populate : Respects frame (populate_variables host [])
      unfolding populate_variables
      Respects-populate = Respects-then (codes "HOST_OS") (host_os host.platform) named (
          Respects-then (codes "HOSTNAME") (get_host_name host) placed (
            Respects-then (codes "CONFIGS_PATH") (get_node_config_path host.platform []) binary
              (set (codes "NODE_BINARY_PATH") (get_node_binary_path host.platform))))
        where
          binary : Run (Unit {0})
          binary = set_var (codes "NODE_BINARY_PATH") (get_node_binary_path host.platform)

          placed : Run (Unit {0})
          placed = set_var (codes "CONFIGS_PATH") (get_node_config_path host.platform []) >> binary

          named : Run (Unit {0})
          named = set_var (codes "HOSTNAME") (get_host_name host) >> placed

      pub Respects-conftool_main :
          (argv : List Bytes)
          → asks argv (codes "--dryrun") (codes "-d") ≡ dry
          → Respects frame (conftool_main host argv)
      unfolding conftool_main
      Respects-conftool_main argv h =
          Respects-bind frame (populate_variables host []) (λ _. rest) Respects-populate
            (λ _.
              Respects-if frame (asks argv (codes "-h") (codes "--help"))
                (print_help >> pure (pos 0)) _ Respects-help
                (Respects-if frame (asks argv (codes "--vars") (codes "-s")) show obeyed
                  (λ w. Respects-show_vars w.vars w)
                  (Respects-bind frame set_path (λ _. run_main host argv)
                    (Respects-if frame (is_empty path) (pure tt)
                      (set_var (codes "CONFIGS_PATH") path) (λ w. frame.here w)
                      (set (codes "CONFIGS_PATH") path))
                    (λ _. Respects-run_main argv h))))
        where
          path : Bytes
          path = get_cmd_option argv (codes "--path") (codes "-p")

          set_path : Run (Unit {0})
          set_path = if is_empty path then pure tt else set_var (codes "CONFIGS_PATH") path

          show : Run ℤ
          show = variables >>= show_vars

          obeyed : Run ℤ
          obeyed = set_path >> run_main host argv

          rest : Run ℤ
          rest =
              if asks argv (codes "-h") (codes "--help")
              then print_help >> pure (pos 0)
              else if asks argv (codes "--vars") (codes "-s")
              then show
              else obeyed
