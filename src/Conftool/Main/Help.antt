-- ===== src/Conftool/Main/Help.antt =====
-- `print_help` of conftool/main.cpp.
use cellframe_node.Prelude.{List, [], ◌∷◌}
use cellframe_node.Prelude.Bytes.{Bytes, codes}
use cellframe_node.Conftool.World.{Run, helped, print}

-- The lines that it prints.
unfoldable pub help_text : List Bytes
help_text =
    codes "cellframe-node-config -h | --help"
    ∷ codes "\t prints this help message"
    ∷ codes "cellframe-node-config -s | --vars"
    ∷ codes "\t prints installation config variables."
    ∷ codes "cellframe-node-config -v | --verbose"
    ∷ codes "\t enable verbose output"
    ∷ codes "cellframe-node-config -d | --dry-run"
    ∷ codes "\t do not actual do a file-system commands"
    ∷ codes "cellframe-node-config -i | --init /path/to/cellframe-node.setup"
    ∷ codes "\t do initial configuration based on provided setup script"
    ∷ codes "cellframe-node-config -e | --exec <command> [and <command> [and <command>]...]"
    ∷ codes "\t execute provided commands. "
    ∷ codes ""
    ∷ codes "Allowed commands:"
    ∷ codes "\tnetwork <netname> ensure on|off"
    ∷ codes "\t\t enable | disable <netname> network"
    ∷ codes "\tnet_list all|on|off"
    ∷ codes "\t\t on - active networks. off - not active networks. all or nothing - all network"
    ∷ codes "\tconfig  <configname>  <section>  <param> ensure  <value>"
    ∷ codes "\t\t set a parameter <param> in section <section> in config <configname> to <value>"
    ∷ codes "\t\t Possible configs: \"cellframe-node\",  \"<netname>\""
    ∷ codes "\tservice  enable"
    ∷ codes "\t\t set cellframe-node to autostart on boot"
    ∷ codes "\tservice  disable"
    ∷ codes "\t\t remove cellframe-node from autostart on boot"
    ∷ codes "\tservice  start"
    ∷ codes "\t\t start cellframe-node (if registred as service!)"
    ∷ codes "\tservice  stop"
    ∷ codes "\t\t stop cellframe-node (if registred as service!)"
    ∷ codes "\tservice  status"
    ∷ codes "\t\t get service & process statuses"
    ∷ []

abbrev pub print_help : Run (Unit {0})
print_help = print (helped help_text)
