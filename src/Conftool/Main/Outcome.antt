-- ===== src/Conftool/Main/Outcome.antt =====
-- What `main` of conftool leaves: a dry run, and a setup file with a bad line.
use cellframe_node.Prelude.{
  ◌∙◌, ◌≡◌, refl, sym, subst, ap, Bool, true, false, some, List, [], ◌∷◌, ◌++◌, arith,
  if◌then◌else◌, is_some, ℤ, pos,
}
use cellframe_node.Prelude.Bytes.{Bytes, codes, is_empty}
use cellframe_node.Conftool.World.{
  Host, World, Run, Result, done, raised, undefined, and_then, ◌>>=◌, ◌>>◌, pure, some_or_throw,
}
use cellframe_node.Conftool.ConfigFile.{strip, read_lines}
use cellframe_node.Conftool.Script.{parse_line_to_cmd, parse_lines, run_commands}
use cellframe_node.Conftool.Script.Dry.{Keeps, files_frame, Keeps-execute}
use cellframe_node.Conftool.Main.Lifting.{Respects-conftool_main}
use cellframe_node.Conftool.Script.Reading.{is_undefined, Parses-parse_line_to_cmd}
use cellframe_node.Conftool.Main.{asks, install_path, init_configs, conftool_main}

module _ (host : Host) where
  -- `conftool` with the option `--dryrun` or `-d` writes, copies and renames no file, whatever else
  -- it is asked to do and however it ends. (`service` calls systemctl or launchctl all the same.)
  pub Keeps-conftool_main :
      (argv : List Bytes)
      → asks argv (codes "--dryrun") (codes "-d") ≡ true
      → Keeps (conftool_main host argv)
  Keeps-conftool_main =
      Respects-conftool_main files_frame host true (Keeps-execute host) (λ name value w. refl)

and_then-raised {ℓ κ} :
    {A : Type ℓ} {B : Type κ} (w : World) (f : A → Run B) (p : Result A × World)
    → p ≡ (raised, w)
    → and_then f p ≡ (raised, w)
and_then-raised w f p e = ap (and_then f) e

and_then-raised_later {ℓ κ} :
    {A : Type ℓ} {B : Type κ} (w : World) (f : A → Run B)
    → ((a : A) → f a w ≡ (raised, w))
    → (p : Result A × World) → (p.1 ≡ w) × (is_undefined p.0 ≡ false)
    → and_then f p ≡ (raised, w)
and_then-raised_later w f h (done a, w') e = ap (f a) e.0 ∙ h a
and_then-raised_later w f h (raised, w') e = ap (λ u. (raised, u)) e.0
and_then-raised_later w f h (undefined, w') e = absurd (cc (e.1))

if-raised {ℓ} :
    {A : Type ℓ} (w : World) (b : Bool) (m k : Run A)
    → (b ≡ true → m w ≡ (raised, w))
    → (b ≡ false → k w ≡ (raised, w))
    → (if b then m else k) w ≡ (raised, w)
if-raised w true m k hm hk = hm refl
if-raised w false m k hm hk = hk refl

parse_lines-raised :
    (before : List Bytes) (bad : Bytes) (after : List Bytes) (w : World)
    → is_empty (strip bad) ≡ false
    → parse_line_to_cmd (strip bad) w ≡ (raised, w)
    → parse_lines (before ++ (bad ∷ after)) w ≡ (raised, w)
unfolding parse_lines
parse_lines-raised [] bad after w e h =
    if-raised w (is_empty (strip bad)) (parse_lines after) _ (λ f. ground arith)
      (λ f.
        and_then-raised w (λ c. parse_lines after >>= λ cs. pure (c ∷ cs))
          (parse_line_to_cmd (strip bad) w) h)
parse_lines-raised (l ∷ ls) bad after w e h =
    let later = parse_lines-raised ls bad after w e h in
    if-raised w (is_empty (strip l)) (parse_lines (ls ++ (bad ∷ after))) _ (λ _. later)
      (λ f.
        and_then-raised_later w (λ c. parse_lines (ls ++ (bad ∷ after)) >>= λ cs. pure (c ∷ cs))
          (λ c. and_then-raised w (λ cs. pure (c ∷ cs)) (parse_lines (ls ++ (bad ∷ after)) w) later)
          (parse_line_to_cmd (strip l) w) (Parses-parse_line_to_cmd l f w))

-- The world behind the line that names the path.
abbrev pub announced : World → World
announced w = record w { output = install_path w.vars ∷ w.output }

module _ (host : Host) where
  pub init_configs-announced :
      (dry : Bool) (path text : Bytes) (w : World)
      → is_empty path ≡ false
      → w.files path ≡ some text
      → init_configs host dry path w
        ≡ (parse_lines (read_lines text) >>= λ cs. run_commands host dry [] cs >> pure (pos 0))
            (announced w)
  unfolding init_configs
  init_configs-announced dry path text w n t =
      rw (n, ap is_some t)
        (ap
          (λ o.
            and_then
              (λ text'. parse_lines (read_lines text') >>= λ cs.
                run_commands host dry [] cs >> pure (pos 0))
              (some_or_throw o (announced w)))
          t)

  -- A setup file with a line that is not empty and cannot be parsed: `init` ends in an exception,
  -- wherever the line stands, and has run none of the file's commands: no file and no variable is
  -- changed, and nothing is printed but the line that names the path of the configurations.
  pub init_configs-raised :
      (dry : Bool) (path text : Bytes) (before : List Bytes) (bad : Bytes) (after : List Bytes)
      (w : World)
      → is_empty path ≡ false
      → w.files path ≡ some text
      → read_lines text ≡ before ++ (bad ∷ after)
      → is_empty (strip bad) ≡ false
      → parse_line_to_cmd (strip bad) (announced w) ≡ (raised, announced w)
      → init_configs host dry path w ≡ (raised, announced w)
  init_configs-raised dry path text before bad after w n t r e h =
      init_configs-announced dry path text w n t
      ∙ subst (λ lines. init lines (announced w) ≡ (raised, announced w)) (sym r)
          (and_then-raised (announced w) _ (parse_lines (before ++ (bad ∷ after)) (announced w))
            (parse_lines-raised before bad after (announced w) e h))
    where
      init : List Bytes → Run ℤ
      init lines = parse_lines lines >>= λ cs. run_commands host dry [] cs >> pure (pos 0)
