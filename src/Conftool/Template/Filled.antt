-- ===== src/Conftool/Template/Filled.antt =====
-- What `fromtemplate` leaves of a configuration.
use cellframe_node.Prelude.{
  ◌≡◌, refl, sym, subst, ◌⊎◌, inl, inr, Bool-cases, Option-cases, Bool, true, false, ◌&&◌, ◌||◌,
  some, ◌∷◌, arith, is_some, if◌then◌else◌,
}
use cellframe_node.Prelude.Bytes.{Bytes, codes, same, same_iff}
use cellframe_node.Conftool.World.{
  Host, World, Note, noted, is_there, fills, Result, done, raised, undefined, put_file, copy_new,
  copy_over, write_file,
}
use cellframe_node.Conftool.ConfigFile.{read_lines, written, replace_placeholders}
use cellframe_node.Conftool.Variables.{substitute_variables}
use cellframe_node.Conftool.Path.{general, on, template, config_path}
use cellframe_node.Conftool.Config.{load_config, save_config}
use cellframe_node.Conftool.Template.{TemplateCommand, populate, fill_template, execute_template}

abbrev pub is_default : Bytes → Bool
is_default action = same action (codes "default")

abbrev pub is_ensure : Bytes → Bool
is_ensure action = same action (codes "ensure")

module _ (host : Host) (action name from to : Bytes) (w : World) where
  -- The text with the variables in place, line by line.
  abbrev pub filled : Bytes → Bytes
  filled text = written (replace_placeholders (substitute_variables w.vars) (read_lines text))

  -- The target has the template's lines with the variables in place, and no other file and no
  -- variable is changed.
  abbrev pub Filled : World → Type 0
  Filled w' =
      (text : Bytes) × (w.files from ≡ some text)
      × ((path : Bytes)
          → w'.files path ≡ (if same path to then some (filled text) else w.files path))
      × (w'.vars ≡ w.vars)

  -- No file and no variable is changed.
  abbrev pub Kept : World → Type 0
  Kept w' = (w'.files ≡ w.files) × (w'.vars ≡ w.vars)

  abbrev pub kept : Bool
  kept = is_default action && is_some (w.files to)

  abbrev pub TemplateOutcome : Result Bool × World → Type 0
  TemplateOutcome (done b, w') = ((kept ≡ true) × Kept w') ⊎ ((kept ≡ false) × Filled w')
  TemplateOutcome (raised, w') = Kept w'
  TemplateOutcome (undefined, w') = ⊥

  abbrev note : Note → World
  note n = record w { output = noted n ∷ w.output }

  abbrev copied : Bytes → World
  copied text = record (note (fills from to)) { files = put_file to (some text) w.files }

  populated : Bytes → World
  populated text = record (note (fills from to)) {
    files = put_file to (some (filled text)) (copied text).files;
  }

  populate-copied :
      (text : Bytes)
      → host.may_write to ≡ true
      → populate host false to (copied text) ≡ (done true, populated text)
  unfolding populate load_config save_config write_file put_file populated
  populate-copied text may = ground (arith, same_iff to to)

  populated-Filled : (text : Bytes) → w.files from ≡ some text → Filled (populated text)
  unfolding populated put_file
  populated-Filled text e = (text, e, λ path. ground arith, refl)

  via :
      (out : Result Bool × World)
      → fill_template host false action name from to w ≡ out
      → TemplateOutcome out
      → TemplateOutcome (fill_template host false action name from to w)
  via out p x = subst TemplateOutcome (sym p) x

  fill_template-TemplateOutcome :
      (is_default action || is_ensure action) ≡ true
      → TemplateOutcome (fill_template host false action name from to w)
  unfolding fill_template copy_new copy_over populated
  fill_template-TemplateOutcome h = elim (Bool-cases kept) [
    | inl k ↦ via (done true, note (is_there name)) (ground arith) (inl (k, (refl, refl)))
    | inr k ↦ elim (Option-cases (w.files from)) [
      | inl e ↦ via (raised, note (fills from to)) (ground arith) (refl, refl)
      | inr (text, e) ↦ elim (Bool-cases (host.may_write to)) [
        | inl may ↦
            via (done true, populated text) (ground (arith, populate-copied text may))
              (inr (k, populated-Filled text e))
        | inr denied ↦ via (raised, note (fills from to)) (ground arith) (refl, refl)
      ]
    ]
  ]

module _ (host : Host) (c : TemplateCommand) (w : World) where
  -- `fromtemplate NAME default|ensure`, other than in a dry run, ends in one of these ways. With
  -- `default` and a file that is there, no file and no variable is changed. Otherwise the file has
  -- the lines of its template with the variables in place, and no other file and no variable is
  -- changed. Or an exception is raised and no file and no variable is changed, no copy that is not
  -- filled in included.
  pub execute_template-TemplateOutcome :
      (is_default c.action || is_ensure c.action) ≡ true
      → TemplateOutcome host c.action c.cfg_name
          (config_path c.cfg_name general template w.vars)
          (config_path c.cfg_name general on w.vars)
          w
          (execute_template host false c w)
  unfolding execute_template
  execute_template-TemplateOutcome h =
      fill_template-TemplateOutcome host c.action c.cfg_name
        (config_path c.cfg_name general template w.vars) (config_path c.cfg_name general on w.vars)
        w h
