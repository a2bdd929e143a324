-- ===== src/Conftool/Config/Overwritten.antt =====
-- `config … ensure` twice for one parameter.
use cellframe_node.Prelude.{
  ◌≡◌, refl, ◌∙◌, ap, sym, subst, ◌≢◌, Bool, ◌∷◌, true, false, some, is_some, arith,
}
use cellframe_node.Prelude.Bytes.{Bytes, same_iff, same_refl}
use cellframe_node.Conftool.ConfigFile.{set, read_lines, written}
use cellframe_node.Conftool.ConfigFile.Plain.{read_back}
use cellframe_node.Conftool.ConfigFile.Steps.{value, unreadable, lookup}
use cellframe_node.Conftool.ConfigFile.Save.{lookup-set_saved}
use cellframe_node.Conftool.ConfigFile.Resaved.{set_saved-set_saved}
use cellframe_node.Conftool.World.{Host, World, Files, Result, done, put_file}
use cellframe_node.Conftool.Path.{general, on, off, config_path}
use cellframe_node.Conftool.Config.{ensure, ConfigCommand, execute_config, set_note}
use cellframe_node.Conftool.Config.Edit.{
  IsSetting, edit_file-set, execute_config-edit_file, target, told, new_value,
}

-- A file that is there stays there.
put_file_there :
    (path old new q : Bytes) (files : Files)
    → files path ≡ some old
    → is_some (put_file path (some new) files q) ≡ is_some (files q)
unfolding put_file
put_file_there path old new q files e = ground (arith, same_iff q path)

pub put_file_self :
    (path text : Bytes) (files : Files) → put_file path (some text) files path ≡ some text
unfolding put_file
put_file_self path text files = rw (same_refl path) refl

-- A change of a configuration's file leaves it the file of the configuration.
pub target-put_file :
    (name old new : Bytes) (w : World)
    → w.files (target w name) ≡ some old
    → target (record w { files = put_file (target w name) (some new) w.files }) name ≡ target w name
target-put_file name old new w e =
    rw
      (
        put_file_there (target w name) old new (config_path name general on w.vars) w.files e,
        put_file_there (target w name) old new (config_path name general off w.vars) w.files e,
      )
      refl

put_file_twice :
    (path q t u : Bytes) (files : Files)
    → put_file path (some u) (put_file path (some t) files) q ≡ put_file path (some u) files q
unfolding put_file
put_file_twice path q t u files = ground arith

execute_config-set :
    (host : Host) (d : ConfigCommand) (text : Bytes) (w : World)
    → d.action ≡ ensure
    → w.files (target w d.cfg_name) ≡ some text
    → host.may_write (target w d.cfg_name) ≡ true
    → lookup (read_lines text) d.group d.param ≢ unreadable
    → execute_config host false d w ≡ (
      done true,
      record w {
        files =
            put_file
              (target w d.cfg_name)
              (some (written (set (read_lines text) d.group d.param (new_value host d text w))))
              w.files;
        output = set_note d (new_value host d text w) ∷ (told w d.cfg_name).output;
      },
    )
execute_config-set host d text w e t may ok =
    execute_config-edit_file host d text w false
    ∙ edit_file-set host d (new_value host d text w) (target w d.cfg_name) text (told w d.cfg_name)
        e t may ok

module _ (host : Host) (c : ConfigCommand) (text : Bytes) (w : World) where
  abbrev pub path : Bytes
  path = target w c.cfg_name

  abbrev first_text : Bytes
  first_text = written (set (read_lines text) c.group c.param (new_value host c text w))

  abbrev behind_first : World
  behind_first = record w {
    files = put_file path (some first_text) w.files;
    output = set_note c (new_value host c text w) ∷ (told w c.cfg_name).output;
  }

  target-behind_first : w.files path ≡ some text → target behind_first c.cfg_name ≡ path
  target-behind_first = target-put_file c.cfg_name text first_text w

  -- The second command can read the file that the first has left.
  first_text-readable :
      IsSetting c.group c.param (new_value host c text w)
      → lookup (read_lines text) c.group c.param ≢ unreadable
      → lookup (read_lines first_text) c.group c.param ≢ unreadable
  first_text-readable s ok e = cc (sym e ∙ first_value)
    where
      first_value :
          lookup (read_lines first_text) c.group c.param
          ≡ value (read_back (new_value host c text w))
      first_value =
          lookup-set_saved text c.group c.param (new_value host c text w) c.group c.param s.group_ok
            s.param_ok s.value_ok s.readable s.one_param_line s.one_group_line ok
          ∙ rw (same_refl c.group, same_refl c.param) refl

  -- `config … ensure`, other than in a dry run, and then the same with another value: the second
  -- command succeeds, and leaves every file as it would without the first. So a command that is given
  -- twice leaves what it leaves when it is given once. The file is there and can be written, its
  -- lines up to the parameter can be read, and the group, the parameter and the first value have no
  -- character that the format gives a meaning, and no white space at their ends.
  pub execute_config_overwritten :
      (v : Bytes)
      → IsSetting c.group c.param (new_value host c text w)
      → c.action ≡ ensure
      → w.files (target w c.cfg_name) ≡ some text
      → host.may_write (target w c.cfg_name) ≡ true
      → lookup (read_lines text) c.group c.param ≢ unreadable
      → let again = execute_config host false (record c { value = v }) in
        let both = again (execute_config host false c w).1 in
        (both.0 ≡ done true) × ((q : Bytes) → both.1.files q ≡ (again w).1.files q)
  execute_config_overwritten v s e t may ok =
      subst
        (λ (w' : World).
          ((again w').0 ≡ done true) × ((q : Bytes) → (again w').1.files q ≡ (again w).1.files q))
        (sym (ap (λ (r : Result Bool × World). r.1) (execute_config-set host c text w e t may ok)))
        (
          ap (λ (r : Result Bool × World). r.0) second,
          λ q.
              ap (λ (r : Result Bool × World). r.1.files q) second
              ∙ ap
                  (λ at.
                    put_file at (some (written (set (read_lines first_text) c.group c.param new)))
                      behind_first.files q)
                  (target-behind_first t)
              ∙ put_file_twice path q first_text _ w.files
              ∙ ap (λ text'. put_file path (some text') w.files q)
                  (set_saved-set_saved text c.group c.param (new_value host c text w) new s.group_ok
                    s.param_ok s.value_ok s.readable s.one_param_line s.one_group_line)
              ∙ sym (
                  ap (λ (r : Result Bool × World). r.1.files q)
                    (execute_config-set host d text w e t may ok)),
        )
    where
      d : ConfigCommand
      d = record c { value = v }

      new : Bytes
      new = new_value host d text w

      again : World → Result Bool × World
      again = execute_config host false d

      second : again behind_first ≡ (
        done true,
        record behind_first {
          files =
              put_file
                (target behind_first c.cfg_name)
                (some (written (set (read_lines first_text) c.group c.param new)))
                behind_first.files;
          output = set_note d new ∷ (told behind_first c.cfg_name).output;
        },
      )
      second =
          execute_config-set host d first_text behind_first e
            (ap behind_first.files (target-behind_first t) ∙ put_file_self path first_text w.files)
            (ap host.may_write (target-behind_first t) ∙ may) (first_text-readable s ok)
