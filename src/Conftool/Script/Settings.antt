-- ===== src/Conftool/Script/Settings.antt =====
-- A list of `config NAME … ensure` commands for one configuration, as changes of a map.
use cellframe_node.Prelude.{
  ◌≡◌, refl, ◌∙◌, ap, subst, ◌≢◌, true, false, ◌&&◌, some, List, [], ◌∷◌, map, All, arith,
  if◌then◌else◌,
}
use cellframe_node.Prelude.Bytes.{Bytes, same}
use cellframe_node.Conftool.ConfigFile.{read_lines}
use cellframe_node.Conftool.ConfigFile.Plain.{read_back}
use cellframe_node.Conftool.ConfigFile.Steps.{Answer, value, unreadable, lookup}
use cellframe_node.Conftool.World.{Host, World, Vars, done, put_file}
use cellframe_node.Conftool.Variables.{substitute_variables}
use cellframe_node.Conftool.Config.{ensure, set_note, ConfigCommand, execute_config}
use cellframe_node.Conftool.Config.Edit.{IsSetting, target, told, Updated, execute_config-Updated}
use cellframe_node.Conftool.Config.Overwritten.{put_file_self, target-put_file}
use cellframe_node.Conftool.Script.{
  Command, config, execute, run_guarded, run_step, run_commands, role_of,
}

pub record ConfigSetting : Type 0 where
  pub group : Bytes
  pub param : Bytes
  pub text : Bytes

-- The command for a setting of this configuration.
abbrev pub command_of : Bytes → ConfigSetting → ConfigCommand
command_of name s = record {
  cfg_name = name;
  group = s.group;
  param = s.param;
  action = ensure;
  value = s.text;
}

-- What a configuration tells: for a group and a parameter an answer.
abbrev pub View : Type 0
View = Bytes → Bytes → Answer

abbrev pub view_of : Bytes → View
view_of file = lookup (read_lines file)

abbrev pub update : Bytes → Bytes → Answer → View → View
update g p a view h q = if same g h && same p q then a else view h q

-- The settings in their order, with the variables in place.
unfoldable pub replay : Vars → List ConfigSetting → View → View
replay vars [] view = view
replay vars (s ∷ ss) view =
    replay vars ss
      (update s.group s.param (value (read_back (substitute_variables vars s.text))) view)

-- The setting can be written and read back, and its place can be found in the file.
abbrev pub Fits : Vars → Bytes → ConfigSetting → Type 0
Fits vars file s =
    IsSetting s.group s.param (substitute_variables vars s.text)
    × (view_of file s.group s.param ≢ unreadable)

module _ (host : Host) (name : Bytes) where
  -- The configuration's file now tells this, and no other file and no variable is changed.
  pub record Shows (w : World) (view : View) (w' : World) : Type 0 where
    pub file : Bytes
    pub there : w'.files (target w name) ≡ some file
    pub tells : (h q : Bytes) → view_of file h q ≡ view h q
    pub others : (q : Bytes) → same q (target w name) ≡ false → w'.files q ≡ w.files q
    pub vars_kept : w'.vars ≡ w.vars

Fits-update :
    (vars : Vars) (file file' : Bytes) (g p v : Bytes) (s : ConfigSetting)
    → ((h q : Bytes) → view_of file' h q ≡ update g p (value v) (view_of file) h q)
    → Fits vars file s
    → Fits vars file' s
Fits-update vars file file' g p v s e (ok, readable) =
    (ok, ground (arith, e s.group s.param, readable))

All-Fits :
    (vars : Vars) (file file' : Bytes) (g p v : Bytes) (ss : List ConfigSetting)
    → ((h q : Bytes) → view_of file' h q ≡ update g p (value v) (view_of file) h q)
    → All (Fits vars file) ss
    → All (Fits vars file') ss
All-Fits vars file file' g p v [] e h = tt
All-Fits vars file file' g p v (s ∷ ss) e (h, hs) =
    (Fits-update vars file file' g p v s e h, All-Fits vars file file' g p v ss e hs)

replay-same :
    (vars : Vars) (ss : List ConfigSetting) (f k : View)
    → ((h q : Bytes) → f h q ≡ k h q)
    → (h q : Bytes) → replay vars ss f h q ≡ replay vars ss k h q
unfolding replay
replay-same vars [] f k e = e
replay-same vars (s ∷ ss) f k e = replay-same vars ss _ _ (λ h q. ground (arith, e h q))

module _ (host : Host) (name : Bytes) where
  abbrev pub settings : List ConfigSetting → List Command
  settings ss = map (λ s. config (command_of name s)) ss

  run_commands-first :
      (s : ConfigSetting) (ss : List ConfigSetting) (w w' : World)
      → execute_config host false (command_of name s) w ≡ (done true, w')
      → run_commands host false [] (settings (s ∷ ss)) w
        ≡ run_commands host false [] (settings ss) w'
  unfolding run_commands run_step run_guarded role_of execute
  run_commands-first s ss w w' e = rw e refl

  abbrev pub Outcome : List ConfigSetting → Bytes → World → Type 0
  Outcome ss file w =
      (w' : World) × (run_commands host false [] (settings ss) w ≡ (done tt, w'))
      × Shows host name w (replay w.vars ss (view_of file)) w'

  -- The world with this text in the configuration's file, and the notes of a setting.
  abbrev with_text : ConfigSetting → World → Bytes → World
  with_text s w text = record w {
    files = put_file (target w name) (some text) w.files;
    output =
        set_note (command_of name s) (substitute_variables w.vars s.text) ∷ (told w name).output;
  }

  put_file_other :
      (at q : Bytes) (text : Bytes) (w : World)
      → same q at ≡ false
      → put_file at (some text) w.files q ≡ w.files q
  unfolding put_file
  put_file_other at q text w e = ground arith

  -- What the commands behind the first show of its world, all of them show of the world before.
  Shows-with_text :
      (s : ConfigSetting) (ss : List ConfigSetting) (file text : Bytes) (w w' : World)
      → w.files (target w name) ≡ some file
      → ((h q : Bytes)
          → view_of text h q
            ≡ update s.group s.param
                (value (read_back (substitute_variables w.vars s.text)))
                (view_of file)
                h
                q)
      → Shows host name (with_text s w text) (replay w.vars ss (view_of text)) w'
      → Shows host name w (replay w.vars (s ∷ ss) (view_of file)) w'
  unfolding replay
  Shows-with_text s ss file text w w' t e later = record {
    file = later.file;
    there = subst (λ at. w'.files at ≡ some later.file) kept later.there;
    tells = λ h q. later.tells h q ∙ replay-same w.vars ss _ _ e h q;
    others = λ q other.
        later.others q (ap (same q) kept ∙ other) ∙ put_file_other (target w name) q text w other;
    vars_kept = later.vars_kept;
  }
    where
      kept : target (with_text s w text) name ≡ target w name
      kept = target-put_file name file text w t

  abbrev Runs : List ConfigSetting → Type 0
  Runs ss =
      (file : Bytes) (w : World)
      → w.files (target w name) ≡ some file
      → host.may_write (target w name) ≡ true
      → All (Fits w.vars file) ss
      → Outcome ss file w

  Runs-cons : (s : ConfigSetting) (ss : List ConfigSetting) → Runs ss → Runs (s ∷ ss)
  Runs-cons s ss runs file w t may (h, hs) = (
    later.0,
    run_commands-first s ss w w1 changed.1 ∙ later.1,
    Shows-with_text s ss file changed.0 w later.0 t changed.2 later.2,
  )
    where
      changed :
          Updated host
            (command_of name s)
            (substitute_variables w.vars s.text)
            (target w name)
            file
            (told w name)
            (execute_config host false (command_of name s) w)
      changed = execute_config-Updated host (command_of name s) file w h.0 refl t may h.1

      w1 : World
      w1 = with_text s w changed.0

      kept : target w1 name ≡ target w name
      kept = target-put_file name file changed.0 w t

      later : Outcome ss changed.0 w1
      later =
          runs changed.0 w1 (ap w1.files kept ∙ put_file_self (target w name) changed.0 w.files)
            (ap host.may_write kept ∙ may)
            (All-Fits w.vars file changed.0 s.group s.param
              (read_back (substitute_variables w.vars s.text)) ss changed.2 hs)

  -- A list of `config NAME … ensure` commands for one configuration, other than in a dry run, ends
  -- without an exception and leaves a file for it that tells what the settings, put one after the
  -- other over what the file told before, say: for a parameter that was set the last of its values,
  -- with the variables in place, and for every other what it was. No other file and no variable is
  -- changed. The file is there and can be written, every group, parameter and value can be
  -- written and read back, and every parameter's place can be found in the file.
  pub run_commands-replay :
      (ss : List ConfigSetting) (file : Bytes) (w : World)
      → w.files (target w name) ≡ some file
      → host.may_write (target w name) ≡ true
      → All (Fits w.vars file) ss
      → Outcome ss file w
  unfolding run_commands replay
  run_commands-replay [] file w t may h = (
    w,
    refl,
    record { file = file; there = t; tells = λ h q. refl; others = λ q e. refl; vars_kept = refl },
  )
  run_commands-replay (s ∷ ss) file w t may h =
      Runs-cons s ss (run_commands-replay ss) file w t may h
