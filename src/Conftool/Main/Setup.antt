-- ===== src/Conftool/Main/Setup.antt =====
-- A setup file of settings, from its text to the configuration that it leaves.
use cellframe_node.Prelude.{
  ◌≡◌, refl, ◌∙◌, ap, Bool, true, false, ◌||◌, some, is_some, List, [], ◌∷◌, map, All, arith, pos,
}
use cellframe_node.Prelude.Bytes.{Bytes, codes, same, is_empty}
use cellframe_node.Conftool.World.{Host, World, done, and_then, ◌>>=◌, ◌>>◌, pure}
use cellframe_node.Conftool.Path.{general, template, config_path}
use cellframe_node.Conftool.Config.{new_config, parse_config_action, is_node}
use cellframe_node.Conftool.Config.Edit.{target}
use cellframe_node.Conftool.Script.{config, instantiate, build, run_commands}
use cellframe_node.Conftool.Script.Source.{is_source, source_text, build_all, parse_lines-source}
use cellframe_node.Conftool.Script.Settings.{
  ConfigSetting, command_of, Fits, Shows, view_of, replay, Outcome, run_commands-replay,
}
use cellframe_node.Conftool.Main.{
  init_configs, populate_variables, conftool_main, run_main, option_exists, behind, get_cmd_option,
}
use cellframe_node.Conftool.Main.Outcome.{announced, init_configs-announced}

module _ (name : Bytes) where
  -- The words of the command for a setting.
  abbrev pub words_of : ConfigSetting → List Bytes
  words_of s = codes "config" ∷ name ∷ s.group ∷ s.param ∷ codes "ensure" ∷ s.text ∷ []

  -- The configuration is the node's, or a network's that has a template.
  abbrev pub is_known : World → Bool
  is_known w = is_node name || is_some (w.files (config_path name general template w.vars))

  build-words_of :
      (s : ConfigSetting) (w : World)
      → is_known w ≡ true
      → build (words_of s) w ≡ (done (config (command_of name s)), w)
  unfolding build instantiate new_config parse_config_action same
  build-words_of s w h = ground arith

  build_all-words_of :
      (ss : List ConfigSetting) (w : World)
      → is_known w ≡ true
      → build_all (map words_of ss) w ≡ (done (map (λ s. config (command_of name s)) ss), w)
  unfolding build_all
  build_all-words_of [] w h = refl
  build_all-words_of (s ∷ ss) w h =
      ap (and_then (λ c. build_all (map words_of ss) >>= λ cs. pure (c ∷ cs)))
        (build-words_of s w h)
      ∙ ap (and_then (λ cs. pure (config (command_of name s) ∷ cs))) (build_all-words_of ss w h)

module _ (host : Host) where
  -- `init_configs`, other than in a dry run, on a setup file of settings for one configuration.
  pub init_configs-replay :
      (path name : Bytes) (ss : List ConfigSetting) (file : Bytes) (w : World)
      → is_empty path ≡ false
      → w.files path ≡ some (source_text (map (words_of name) ss))
      → is_source (map (words_of name) ss) ≡ true
      → is_known name w ≡ true
      → w.files (target w name) ≡ some file
      → host.may_write (target w name) ≡ true
      → All (Fits w.vars file) ss
      → (w' : World) × (init_configs host false path w ≡ (done (pos 0), w'))
        × Shows host name (announced w) (replay w.vars ss (view_of file)) w'
  init_configs-replay path name ss file w n t source known there may fits = (
    ran.0,
    init_configs-announced host false path (source_text (map (words_of name) ss)) w n t
        ∙ ap (and_then (λ cs. run_commands host false [] cs >> pure (pos 0))) (
            parse_lines-source (map (words_of name) ss) (announced w) source
            ∙ build_all-words_of name ss (announced w) known)
        ∙ ap (and_then (λ _. pure (pos 0))) ran.1,
    ran.2,
  )
    where
      ran : Outcome host name ss file (announced w)
      ran = run_commands-replay host name ss file (announced w) there may fits

  -- `variable_storage` and all else behind `populate_variables`.
  abbrev pub populated : World → World
  populated w = (populate_variables host [] w).1

  conftool_main-init_configs :
      (program rest : Bytes) (w : World)
      → conftool_main host ((b'/' ∷ program) ∷ codes "--init" ∷ (b'/' ∷ rest) ∷ []) w
        ≡ init_configs host false (b'/' ∷ rest) (populated w)
  unfolding conftool_main populate_variables run_main option_exists behind get_cmd_option same
  conftool_main-init_configs program rest w = refl

  -- `conftool --init FILE`, with the paths of the program and of FILE from the root on: a setup
  -- file of settings for one configuration, one command `config NAME GROUP PARAM ensure VALUE` a
  -- line. It returns 0, and the configuration's file then tells what the settings, put one after
  -- the other over what it told before, say, with the variables in place that the start has set; no
  -- other file is changed, and after the start no variable. No word has white space or begins a
  -- comment; the configuration is the node's, or that of a network with a template; its file is
  -- there and can be written; every group, parameter and value can be written and read back, and
  -- every parameter's place can be found in the file.
  pub conftool_main-replay :
      (program rest name : Bytes) (ss : List ConfigSetting) (file : Bytes) (w : World)
      → w.files (b'/' ∷ rest) ≡ some (source_text (map (words_of name) ss))
      → is_source (map (words_of name) ss) ≡ true
      → is_known name (populated w) ≡ true
      → w.files (target (populated w) name) ≡ some file
      → host.may_write (target (populated w) name) ≡ true
      → All (Fits (populated w).vars file) ss
      → (w' : World) × (conftool_main host
            ((b'/' ∷ program) ∷ codes "--init" ∷ (b'/' ∷ rest) ∷ [])
            w
          ≡ (done (pos 0), w'))
        × Shows host name (announced (populated w)) (replay (populated w).vars ss (view_of file)) w'
  unfolding populate_variables
  conftool_main-replay program rest name ss file w t source known there may fits =
      (ran.0, conftool_main-init_configs program rest w ∙ ran.1, ran.2)
    where
      ran :
          (w' : World) × (init_configs host false (b'/' ∷ rest) (populated w) ≡ (done (pos 0), w'))
          × Shows host name
              (announced (populated w))
              (replay (populated w).vars ss (view_of file))
              w'
      ran =
          init_configs-replay (b'/' ∷ rest) name ss file (populated w) refl t source known there may
            fits
