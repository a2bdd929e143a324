-- ===== src/Conftool/Config/Edit.antt =====
-- What `config` leaves of the file it is run on.
use cellframe_node.Prelude.{
  ◌≡◌, refl, subst, sym, is_some, ◌≢◌, Bool, true, false, not, ◌&&◌, some, List, [], ◌∷◌, ◌++◌,
  arith, if◌then◌else◌,
}
use cellframe_node.Prelude.Bytes.{Bytes, same, has}
use cellframe_node.Conftool.ConfigFile.{set, read_lines, written, param_line, group_line}
use cellframe_node.Conftool.ConfigFile.Plain.{IsName, IsValue, IsReadable, read_back}
use cellframe_node.Conftool.ConfigFile.Steps.{Answer, value, unreadable, lookup}
use cellframe_node.Conftool.ConfigFile.Save.{lookup-set_saved}
use cellframe_node.Conftool.World.{
  Host, World, Output, noted, keeps_value, Result, done, put_file, write_file,
}
use cellframe_node.Conftool.Path.{general, on, off, config_path}
use cellframe_node.Conftool.Variables.{substitute_variables}
use cellframe_node.Conftool.Config.{
  default, ensure, ConfigCommand, is_placeholder, load_config, save_config, set_and_save, set_note,
  both_note, run_config, edit_file, execute_config, config_file, is_node,
}

-- A group, a parameter and a value that can be written and read back.
pub record IsSetting (g p v : Bytes) : Type 0 where
  pub group_ok : IsName g
  pub param_ok : IsName p
  pub value_ok : IsValue v
  pub readable : IsReadable v
  pub one_param_line : has b'\n' (param_line p v) ≡ false
  pub one_group_line : has b'\n' (group_line g) ≡ false

-- There is a value, and it is no placeholder.
abbrev pub is_set_value : Answer → Bool
is_set_value (value v) = not (is_placeholder v)
is_set_value _ = false

module _ (host : Host) (c : ConfigCommand) (v path text : Bytes) (w : World) where
  -- The file at this path has these lines, no other file and no variable is changed, and it is said
  -- what is set.
  abbrev pub saved : List Bytes → World
  saved lines = record w {
    files = put_file path (some (written lines)) w.files;
    output = set_note c v ∷ w.output;
  }

  pub edit_file-set :
      c.action ≡ ensure
      → w.files path ≡ some text
      → host.may_write path ≡ true
      → lookup (read_lines text) c.group c.param ≢ unreadable
      → edit_file host false c v path w
        ≡ (done true, saved (set (read_lines text) c.group c.param v))
  unfolding load_config run_config set_and_save save_config write_file
  edit_file-set e t may ok = ground arith

  -- The file at this path now has this text, no other is changed, and a search in it finds the new
  -- value under the command's parameter and what it found before under every other.
  abbrev pub Updated : Result Bool × World → Type 0
  Updated out =
      (text' : Bytes) × (out ≡ (
        done true,
        record w { files = put_file path (some text') w.files; output = set_note c v ∷ w.output },
      ))
      × ((h q : Bytes)
          → lookup (read_lines text') h q ≡ (
              if same c.group h && same c.param q
              then value (read_back v)
              else lookup (read_lines text) h q))

  edit_file-Updated :
      IsSetting c.group c.param v
      → c.action ≡ ensure
      → w.files path ≡ some text
      → host.may_write path ≡ true
      → lookup (read_lines text) c.group c.param ≢ unreadable
      → Updated (edit_file host false c v path w)
  edit_file-Updated s e t may ok = (
    written (set (read_lines text) c.group c.param v),
    edit_file-set e t may ok,
    λ h q.
        lookup-set_saved text c.group c.param v h q s.group_ok s.param_ok s.value_ok s.readable
          s.one_param_line s.one_group_line ok,
  )

  abbrev pub keeps_note : Answer → Output
  keeps_note (value v') = noted (keeps_value c.cfg_name c.group c.param v')
  keeps_note _ = noted (keeps_value c.cfg_name c.group c.param [])

  edit_file-default :
      (dry : Bool)
      → c.action ≡ default
      → w.files path ≡ some text
      → lookup (read_lines text) c.group c.param ≢ unreadable
      → edit_file host dry c v path w ≡ (
          if is_set_value (lookup (read_lines text) c.group c.param)
          then (
            done true,
            record w { output = keeps_note (lookup (read_lines text) c.group c.param) ∷ w.output },
          )
          else edit_file host dry (record c { action = ensure }) v path w)
  unfolding load_config run_config set_and_save is_placeholder
  edit_file-default dry e t ok = ground arith

-- The file of a configuration: for a network the one in its folder that is there, and rather the
-- enabled one.
abbrev pub target : World → Bytes → Bytes
target w name =
    let on_path = config_path name general on w.vars in
    let off_path = config_path name general off w.vars in
    if not (is_node name) && (is_some (w.files off_path) && not (is_some (w.files on_path)))
    then off_path
    else on_path

-- The world in which it is said that a network has both files, if it has.
abbrev pub told : World → Bytes → World
told w name = record w {
  output =
      both_note name (
        is_some (w.files (config_path name general on w.vars))
        && is_some (w.files (config_path name general off w.vars)))
      ++ w.output;
}

module _ (host : Host) (c : ConfigCommand) (text : Bytes) (w : World) where
  abbrev pub new_value : Bytes
  new_value = substitute_variables w.vars c.value

  pub execute_config-edit_file :
      (dry : Bool)
      → execute_config host dry c w
        ≡ edit_file host dry c new_value (target w c.cfg_name) (told w c.cfg_name)
  unfolding execute_config config_file
  execute_config-edit_file dry = refl

  -- `config … ensure`, other than in a dry run, on a file that is there and can be written, and
  -- whose lines up to the parameter can be read: the file is saved, and loading it again finds the
  -- new value, with the variables in place, under the group and the parameter of the command, and
  -- under every other what was there before; no other file and no variable is changed. The group,
  -- the parameter and the value have no character that the format gives a meaning, and no white
  -- space at their ends.
  pub execute_config-Updated :
      IsSetting c.group c.param new_value
      → c.action ≡ ensure
      → w.files (target w c.cfg_name) ≡ some text
      → host.may_write (target w c.cfg_name) ≡ true
      → lookup (read_lines text) c.group c.param ≢ unreadable
      → Updated host c new_value
          (target w c.cfg_name)
          text
          (told w c.cfg_name)
          (execute_config host false c w)
  execute_config-Updated s e t may ok =
      subst (Updated host c new_value (target w c.cfg_name) text (told w c.cfg_name))
        (sym (execute_config-edit_file false))
        (edit_file-Updated host c new_value (target w c.cfg_name) text (told w c.cfg_name) s e t may
          ok)

  -- `config … default` on a file that is there and whose lines up to the parameter can be read:
  -- where the parameter has a value that is no placeholder, it says so and changes nothing; where it
  -- has none, or only a placeholder, the command does what `ensure` does.
  pub execute_config-default :
      (dry : Bool)
      → c.action ≡ default
      → w.files (target w c.cfg_name) ≡ some text
      → lookup (read_lines text) c.group c.param ≢ unreadable
      → execute_config host dry c w ≡ (
          if is_set_value (lookup (read_lines text) c.group c.param)
          then (
            done true,
            record (told w c.cfg_name) {
              output =
                  keeps_note host c new_value
                    (target w c.cfg_name)
                    text
                    w
                    (lookup (read_lines text) c.group c.param)
                  ∷ (told w c.cfg_name).output;
            },
          )
          else execute_config host dry (record c { action = ensure }) w)
  unfolding execute_config config_file
  execute_config-default dry e t ok =
      edit_file-default host c new_value (target w c.cfg_name) text (told w c.cfg_name) dry e t ok
