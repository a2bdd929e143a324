-- ===== src/Conftool/Examples/Repeats.antt =====
-- Commands that are given twice.
use cellframe_node.Prelude.{◌≡◌, refl, true, false, none, some, [], ◌∷◌, if◌then◌else◌}
use cellframe_node.Prelude.Bytes.{Bytes, codes, same}
use cellframe_node.Conftool.World.{World, done, noted, is_settled, copy_new}
use cellframe_node.Conftool.Config.{execute_config}
use cellframe_node.Conftool.Config.Overwritten.{execute_config_overwritten}
use cellframe_node.Conftool.Variables.{substitute_variables}
use cellframe_node.Conftool.Network.{NetAction, NetworkCommand, ensure_net, execute_network}
use cellframe_node.Conftool.Network.Paths.{is_network}
use cellframe_node.Conftool.Network.Settled.{execute_network_settled}
use cellframe_node.Conftool.Path.{◌/◌, config_path, general, template}
use cellframe_node.Conftool.Examples.{
  host, world, text, set_enabled, enabled-IsSetting, config-there, text-readable,
}

execute_config_overwritten_example :
    let again = execute_config host false (record set_enabled { value = codes "auto" }) in
    let both = again (execute_config host false set_enabled world).1 in
    (both.0 ≡ done true) × ((q : Bytes) → both.1.files q ≡ (again world).1.files q)
unfolding substitute_variables
execute_config_overwritten_example =
    execute_config_overwritten host set_enabled text world (codes "auto") enabled-IsSetting refl
      config-there refl text-readable

-- A network with its template, and neither on nor off.
abbrev with_template : World
with_template = record {
  files = λ path.
      if same path (config_path (codes "backbone") general template [])
      then some (codes "[general]")
      else none;
  vars = [];
  output = [];
}

abbrev switch_on : NetworkCommand
switch_on = record { net_name = codes "backbone"; action = NetAction.ensure true }

abbrev switched : World
switched = (execute_network host false switch_on with_template).1

switched_on : execute_network host false switch_on with_template ≡ (done true, switched)
unfolding execute_network ensure_net copy_new config_path same ◌/◌
switched_on = refl

is_network-backbone : is_network (codes "backbone") ≡ true
unfolding same
is_network-backbone = refl

execute_network_settled_example : execute_network host false switch_on switched ≡ (
  done false,
  record switched { output = noted (is_settled (codes "backbone") true) ∷ switched.output },
)
execute_network_settled_example =
    execute_network_settled host switch_on with_template true true switched is_network-backbone refl
      switched_on
