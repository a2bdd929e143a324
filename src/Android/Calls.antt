-- ===== src/Android/Calls.antt =====
-- Java's calls of the configuration and of the command line.
use cellframe_node.Prelude.{◌≡◌, ap, true, false, some, List, ◌∷◌, ◌++◌, neg, length}
use cellframe_node.Prelude.Bytes.{Bytes, is_empty}
use cellframe_node.Prelude.Bytes.Spaced.{are_tokens, spaced, tokenize-spaced}
use cellframe_node.Conftool.World.{Host, World, raised, done}
use cellframe_node.Conftool.ConfigFile.{read_lines, strip}
use cellframe_node.Conftool.Script.{parse_line_to_cmd}
use cellframe_node.Conftool.Main.{populate_variables}
use cellframe_node.Conftool.Main.Outcome.{announced, init_configs-raised}
use cellframe_node.Android.{
  on_android, caught, init_configs_native, with_null, cli_command_args, cli_command_string,
}

-- A command line whose words are not empty and have no white space is handed on as these words,
-- the same whether it comes as one string or as an array.
pub cli_command_string-args :
    (cli_exec : _) (words : List Bytes)
    → are_tokens words ≡ true
    → cli_command_string cli_exec (spaced words) ≡ cli_command_args cli_exec words
unfolding cli_command_string cli_command_args
cli_command_string-args cli_exec words h =
    ap (λ ws. cli_exec (length (with_null ws)) (with_null ws)) (tokenize-spaced words h)

module _ (host : Host) (base_path : Bytes) where
  -- The world behind `populate_variables`.
  abbrev pub populated : World → World
  populated w = (populate_variables (on_android host) base_path w).1

  -- A setup file with a line that cannot be parsed: Java gets -1 and no exception, none of the
  -- file's commands has run, and nothing but the four variables of the start is set, and nothing is
  -- printed but the line that names the path of the configurations.
  pub init_configs_native-unparsed :
      (path text : Bytes) (before : List Bytes) (bad : Bytes) (after : List Bytes) (w : World)
      → is_empty path ≡ false
      → w.files path ≡ some text
      → read_lines text ≡ before ++ (bad ∷ after)
      → is_empty (strip bad) ≡ false
      → parse_line_to_cmd (strip bad) (announced (populated w)) ≡ (raised, announced (populated w))
      → init_configs_native host base_path path w ≡ (done (neg 1), announced (populated w))
  unfolding init_configs_native populate_variables
  init_configs_native-unparsed path text before bad after w n t r e h = ap caught (
      init_configs-raised (on_android host) false path text before bad after (populated w) n t r e
        h)
