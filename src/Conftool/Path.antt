-- ===== src/Conftool/Path.antt =====
-- `config_path` and `get_config_path` (conftool/config/CellframeConfigFile.cpp).
use cellframe_node.Prelude.{Bool, false, [], ◌∷◌, ◌++◌, ◌==◌, if◌then◌else◌}
use cellframe_node.Prelude.Bytes.{Bytes, codes, same}
use cellframe_node.Conftool.World.{Vars}
use cellframe_node.Conftool.Variables.{get_var}

pub data NetworkConfigType : Type 0 where
  general mainchain zerochain : NetworkConfigType

pub data NetworkConfigState : Type 0 where
  on off template : NetworkConfigState

pub data PathConfigType : Type 0 where
  cfg_node cfg_node_template cfg_network cfg_network_template : PathConfigType

abbrev pub ends_in_slash : Bytes → Bool
ends_in_slash [] = false
ends_in_slash (c ∷ []) = c == b'/'
ends_in_slash (c ∷ d ∷ cs) = ends_in_slash (d ∷ cs)

-- `operator/` of paths: an absolute path on the right stands alone.
abbrev pub begins_with_slash : Bytes → Bool
begins_with_slash [] = false
begins_with_slash (c ∷ cs) = c == b'/'

infixl 60 ◌/◌
unfoldable pub ◌/◌ : Bytes → Bytes → Bytes
[] / b = b
(c ∷ a) / b =
    if begins_with_slash b
    then b
    else if ends_in_slash (c ∷ a)
    then (c ∷ a) ++ b
    else (c ∷ a) ++ b'/' ∷ b

abbrev pub configs_path : Vars → Bytes
configs_path vars = get_var (codes "CONFIGS_PATH") vars

abbrev pub network_dir : Vars → Bytes
network_dir vars = configs_path vars / codes "etc" / codes "network/"

abbrev pub template_dir : Vars → Bytes
template_dir vars = configs_path vars / codes "share" / codes "configs" / codes "network/"

unfoldable pub get_config_path : PathConfigType → Vars → Bytes
unfolding ◌/◌ get_var
get_config_path cfg_node vars = configs_path vars / codes "share" / codes "configs"
get_config_path cfg_node_template vars = configs_path vars / codes "etc"
get_config_path cfg_network vars = network_dir vars
get_config_path cfg_network_template vars = template_dir vars

abbrev pub node_path : NetworkConfigState → Vars → Bytes
node_path template vars =
    configs_path vars / codes "share" / codes "configs" / codes "cellframe-node.cfg"
node_path on vars = configs_path vars / codes "etc" / codes "cellframe-node.cfg"
node_path off vars = configs_path vars / codes "etc" / codes "cellframe-node.cfg"

abbrev pub net_path : Bytes → NetworkConfigType → NetworkConfigState → Vars → Bytes
net_path name general on vars = network_dir vars / (name ++ codes ".cfg")
net_path name general off vars = network_dir vars / (name ++ codes ".cfg.dis")
net_path name general template vars = template_dir vars / (name ++ codes ".cfg")
net_path name mainchain state vars = network_dir vars / name / codes "main.cfg"
net_path name zerochain state vars = network_dir vars / name / codes "zerochain.cfg"

-- The `throw` at its end is not reached.
unfoldable pub config_path : Bytes → NetworkConfigType → NetworkConfigState → Vars → Bytes
unfolding same ◌/◌ get_var
config_path name type state vars =
    if same name (codes "cellframe-node")
    then node_path state vars
    else net_path name type state vars
