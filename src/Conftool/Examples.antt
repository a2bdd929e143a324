-- ===== src/Conftool/Examples.antt =====
-- Runs of conftool's parts on a small configuration.
mod Commands
mod Services
mod Repeats
mod Setups
use cellframe_node.Prelude.{
  ◌||◌, ◌≡◌, refl, ◌≢◌, ◌⊎◌, inl, inr, Bool, true, false, Option, none, some, List, [], ◌∷◌, ℤ, pos,
  subst, sym, map, if◌then◌else◌,
}
use cellframe_node.Prelude.Bytes.{Bytes, codes, has, same, is_empty, is_space, tokenize}
use cellframe_node.Conftool.World.{
  linux, Host, World, Output, missing, Result, done, raised, undefined,
}
use cellframe_node.Conftool.ConfigFile.{read_lines, written, strip, exists, classify}
use cellframe_node.Conftool.ConfigFile.Plain.{IsName, IsValue, IsReadable, IsReadable-plain}
use cellframe_node.Conftool.ConfigFile.Steps.{Answer, value, nothing, unreadable, lookup}
use cellframe_node.Conftool.ConfigFile.Save.{lookup-set_saved}
use cellframe_node.Conftool.Config.{ConfigCommand, default, ensure, execute_config, is_placeholder}
use cellframe_node.Conftool.Config.Edit.{
  IsSetting, Updated, target, told, new_value, execute_config-Updated, execute_config-default,
}
use cellframe_node.Conftool.Network.{NetAction, NetworkCommand, execute_network}
use cellframe_node.Conftool.Network.Outcome.{DefaultOutcome, EnsureOutcome}
use cellframe_node.Conftool.Network.Paths.{
  is_network, path_of, states-differ, execute_network-EnsureOutcome, execute_network-DefaultOutcome,
}
use cellframe_node.Conftool.Template.{TemplateCommand, execute_template}
use cellframe_node.Conftool.Template.Filled.{
  is_default, is_ensure, TemplateOutcome, execute_template-TemplateOutcome,
}
use cellframe_node.Conftool.Path.{on, off, template, config_path}
use cellframe_node.Conftool.Variables.{substitute_variables}
use cellframe_node.Conftool.Script.{
  Command, run_commands, service, var, if_open, endif, parse_line_to_cmd,
}
use cellframe_node.Conftool.Script.Blocks.{
  Script, end, command, block, commands, is_nested, run_script, run_commands-commands,
}
use cellframe_node.Conftool.Condition.{Condition, equal}
use cellframe_node.Conftool.Main.{conftool_main, init_configs, split_commands, asks, option_exists}
use cellframe_node.Conftool.Main.Outcome.{Keeps-conftool_main}
use cellframe_node.Conftool.Main.Words.{split_commands-joined, joined, are_commands}

abbrev group : Bytes
group = codes "server"

abbrev param : Bytes
param = codes "enabled"

abbrev lines : List Bytes
lines = codes "[server]" ∷ codes "enabled=false" ∷ codes "port=8079" ∷ []

group-IsName : IsName group
unfolding has
group-IsName = record {
  not_empty = refl;
  no_eq = refl;
  no_hash = refl;
  no_close = refl;
  no_open = refl;
  begins = refl;
  ends = refl;
}

param-IsName : IsName param
unfolding has
param-IsName = record {
  not_empty = refl;
  no_eq = refl;
  no_hash = refl;
  no_close = refl;
  no_open = refl;
  begins = refl;
  ends = refl;
}

true-IsValue : IsValue (codes "true")
unfolding has
true-IsValue = record { no_hash = refl; ends = refl }

true-IsReadable : IsReadable (codes "true")
unfolding has
true-IsReadable = IsReadable-plain (codes "true") refl

lookup-lines : lookup lines group param ≡ value (codes "false")
unfolding exists classify same
lookup-lines = refl

lines-readable : lookup lines group param ≢ unreadable
lines-readable e = cc lookup-lines

abbrev pub text : Bytes
text = written lines

text-lines : read_lines text ≡ lines
unfolding read_lines written
text-lines = refl

pub text-readable : lookup (read_lines text) group param ≢ unreadable
text-readable = subst (λ ls. lookup ls group param ≢ unreadable) (sym text-lines) lines-readable

-- A system on which everything can be written and every call succeeds.
abbrev pub host : Host
host = record {
  platform = linux;
  may_write = λ path. true;
  system = λ output cmd. true;
  listing = λ files path. missing;
  host_name = none;
}

-- The network's template, a configuration and a setup file with a command that is unknown.
abbrev pub world : World
world = record {
  files = λ path.
      if same path (codes "template")
      then some (codes "[general]")
      else if same path (codes "etc/cellframe-node.cfg")
      then some text
      else if same path (codes "setup")
      then some (codes "service stop\nfrobnicate\n")
      else none;
  vars = [];
  output = [];
}

abbrev backbone : NetAction → NetworkCommand
backbone action = record { net_name = codes "backbone"; action = action }

backbone-network : is_network (codes "backbone") ≡ true
unfolding same
backbone-network = refl

execute_network-EnsureOutcome_example :
    EnsureOutcome host
      (codes "backbone")
      (path_of (codes "backbone") [] on)
      (path_of (codes "backbone") [] off)
      (path_of (codes "backbone") [] template)
      (states-differ (codes "backbone") [] true backbone-network)
      world
      true
      (execute_network host false (backbone (NetAction.ensure true)) world)
execute_network-EnsureOutcome_example =
    execute_network-EnsureOutcome host (backbone (NetAction.ensure true)) world backbone-network
      true refl

abbrev fill : TemplateCommand
fill = record { cfg_name = codes "backbone"; action = codes "ensure" }

fill-ensure : (is_default fill.action || is_ensure fill.action) ≡ true
unfolding same
fill-ensure = refl

execute_template-TemplateOutcome_example :
    TemplateOutcome host
      (codes "ensure")
      (codes "backbone")
      (path_of (codes "backbone") [] template)
      (path_of (codes "backbone") [] on)
      world
      (execute_template host false fill world)
execute_template-TemplateOutcome_example =
    execute_template-TemplateOutcome host fill world fill-ensure

abbrev pub set_enabled : ConfigCommand
set_enabled = record {
  cfg_name = codes "cellframe-node";
  group = group;
  param = param;
  action = ensure;
  value = codes "true";
}

pub enabled-IsSetting : IsSetting group param (codes "true")
unfolding has
enabled-IsSetting = record {
  group_ok = group-IsName;
  param_ok = param-IsName;
  value_ok = true-IsValue;
  readable = true-IsReadable;
  one_param_line = refl;
  one_group_line = refl;
}

pub config-there : world.files (target world (codes "cellframe-node")) ≡ some text
unfolding same config_path
config-there = refl

execute_config-Updated_example :
    Updated host set_enabled
      (new_value host set_enabled text world)
      (target world (codes "cellframe-node"))
      text
      (told world set_enabled.cfg_name)
      (execute_config host false set_enabled world)
unfolding substitute_variables
execute_config-Updated_example =
    execute_config-Updated host set_enabled text world enabled-IsSetting refl config-there refl
      text-readable
