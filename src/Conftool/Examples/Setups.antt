-- ===== src/Conftool/Examples/Setups.antt =====
-- A setup file with two settings of the node's configuration.
use cellframe_node.Prelude.{
  subst, sym, ◌≡◌, refl, true, none, some, List, [], ◌∷◌, map, All, pos, ◌≢◌, if◌then◌else◌,
}
use cellframe_node.Prelude.Bytes.{
  Bytes, codes, same, has, pieces, replace_all, text_lt, starts_with,
}
use cellframe_node.Prelude.Bytes.Spaced.{are_tokens}
use cellframe_node.Prelude.Bytes.Words.{without_char}
use cellframe_node.Conftool.ConfigFile.{read_lines, written, exists, classify}
use cellframe_node.Conftool.ConfigFile.Plain.{IsName, IsReadable-plain}
use cellframe_node.Conftool.ConfigFile.Steps.{value, unreadable}
use cellframe_node.Conftool.World.{World, done}
use cellframe_node.Conftool.Config.Edit.{IsSetting, target}
use cellframe_node.Conftool.Variables.{
  put, get_var, add_placeholders, replace_in_turn, substitute_variables,
}
use cellframe_node.Conftool.Script.{parse_lines}
use cellframe_node.Conftool.Script.Source.{is_source, source_text, build_all, parse_lines-source}
use cellframe_node.Conftool.Script.Settings.{ConfigSetting, Shows, Fits, view_of, replay}
use cellframe_node.Conftool.Main.{conftool_main, populate_variables}
use cellframe_node.Conftool.Main.Outcome.{announced}
use cellframe_node.Conftool.Main.Setup.{words_of, is_known, populated, conftool_main-replay}
use cellframe_node.Conftool.Path.{◌/◌, config_path}
use cellframe_node.Conftool.Examples.{host, text, enabled-IsSetting, text-readable}

abbrev enabled : ConfigSetting
enabled = record { group = codes "server"; param = codes "enabled"; text = codes "true" }

abbrev port : ConfigSetting
port = record { group = codes "server"; param = codes "port"; text = codes "8080" }

abbrev node : Bytes
node = codes "cellframe-node"

abbrev words : List (List Bytes)
words = map (words_of node) (enabled ∷ port ∷ [])

abbrev world : World
world = record {
  files = λ path.
      if same path (codes "/setup")
      then some (source_text words)
      else if same path (codes "/opt/cellframe-node/etc/cellframe-node.cfg")
      then some text
      else none;
  vars = [];
  output = [];
}

port-IsName : IsName port.param
unfolding has
port-IsName = record {
  not_empty = refl;
  no_eq = refl;
  no_hash = refl;
  no_close = refl;
  no_open = refl;
  begins = refl;
  ends = refl;
}

port-IsSetting : IsSetting port.group port.param port.text
unfolding has
port-IsSetting = record {
  group_ok = enabled-IsSetting.group_ok;
  param_ok = port-IsName;
  value_ok = record { no_hash = refl; ends = refl };
  readable = IsReadable-plain port.text refl;
  one_param_line = refl;
  one_group_line = refl;
}

port-lookup : view_of text port.group port.param ≡ value (codes "8079")
unfolding exists classify same read_lines written pieces
port-lookup = refl

port-readable : view_of text port.group port.param ≢ unreadable
port-readable e = cc port-lookup

abbrev started : World
started = populated host world

-- Neither value has a variable in it.
true-kept : substitute_variables started.vars enabled.text ≡ enabled.text
unfolding populate_variables put substitute_variables add_placeholders replace_in_turn replace_all
    same text_lt starts_with
true-kept = refl

port-kept : substitute_variables started.vars port.text ≡ port.text
unfolding populate_variables put substitute_variables add_placeholders replace_in_turn replace_all
    same text_lt starts_with
port-kept = refl

settings-Fit : All (Fits started.vars text) (enabled ∷ port ∷ [])
settings-Fit = (
  (subst (IsSetting enabled.group enabled.param) (sym true-kept) enabled-IsSetting, text-readable),
  ((subst (IsSetting port.group port.param) (sym port-kept) port-IsSetting, port-readable), tt),
)

setup-there : world.files (codes "/setup") ≡ some (source_text words)
unfolding same
setup-there = refl

file-there : world.files (target started node) ≡ some text
unfolding populate_variables put same config_path ◌/◌ get_var
file-there = refl

words-are_source : is_source words ≡ true
unfolding is_source are_tokens without_char
words-are_source = refl

parse_lines-source_example :
    parse_lines (read_lines (source_text words)) world ≡ build_all words world
parse_lines-source_example = parse_lines-source words world words-are_source

node-known : is_known node started ≡ true
unfolding same
node-known = refl

conftool_main-replay_example :
    (w' : World) × (conftool_main host
        (codes "/conftool" ∷ codes "--init" ∷ codes "/setup" ∷ [])
        world
      ≡ (done (pos 0), w'))
    × Shows host node
        (announced started)
        (replay started.vars (enabled ∷ port ∷ []) (view_of text))
        w'
conftool_main-replay_example =
    conftool_main-replay host (codes "conftool") (codes "setup") node (enabled ∷ port ∷ []) text
      world setup-there words-are_source node-known file-there refl settings-Fit
