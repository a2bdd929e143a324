-- ===== src/Tool/Help.antt =====
-- `s_help` of sources/main_node_tool.c.
use cellframe_node.Prelude.{List, [], ◌∷◌, String}
use cellframe_node.Prelude.Text.{◌<>◌}

-- The lines that it prints, with the name of the tool.
unfoldable pub usage : String → List String
usage tool =
    ""
    ∷ (tool <> " usage:")
    ∷ ""
    ∷ " * Create new key wallet and generate signatures with same names plus index "
    ∷ ("\t" <> tool
        <> " wallet create <wallet name> <signature type> [-seed \"ascii value here\"] [<signature type 2>[...<signature type N>]]")
    ∷ ""
    ∷ " * Create a new key wallet and generate signatures with the same names plus index. The wallet will be password protected. "
    ∷ ("\t" <> tool
        <> " wallet create_wp <wallet name> <password> <signature type> [-seed \"ascii value here\"] [<signature type 2>[...<signature type N>]]")
    ∷ ""
    ∷ " * Print hash of public key for wallet <wallet name>"
    ∷ ("\t" <> tool <> " wallet pkey show <wallet name> {<password>}")
    ∷ ""
    ∷ " * Create new key file with randomly produced key stored in"
    ∷ ("\t" <> tool
        <> " cert create <cert name> <sign type> [-seed \"ascii value here\"] [<key length>]")
    ∷ ""
    ∷ " * Dump cert data stored in <file path>"
    ∷ ("\t" <> tool <> " cert dump <cert name>")
    ∷ ""
    ∷ " * Sign some data with cert "
    ∷ ("\t" <> tool
        <> " cert sign <cert name> <data file path> <sign file output> [<sign data length>] [<sign data offset>]")
    ∷ ""
    ∷ " * Create pkey from <cert name> and store it on <pkey path>"
    ∷ ("\t" <> tool <> " cert create_pkey <cert name> <pkey path>")
    ∷ ""
    ∷ " * Export only public key from <cert name> and stores it "
    ∷ ("\t" <> tool <> " cert create_cert_pkey <cert name> <new cert name>")
    ∷ ""
    ∷ " * Print hash of public key for cert <cert name>"
    ∷ ("\t" <> tool <> " cert pkey show <cert name>")
    ∷ ""
    ∷ " * Print addr of cert <cert name>"
    ∷ ("\t" <> tool <> " cert addr show <cert name>")
    ∷ ""
    ∷ " * Add metadata item to <cert name>"
    ∷ ("\t" <> tool <> " cert add_metadata <cert name> <key:type:length:value>")
    ∷ ""
    ∷ []

-- The tool's name is that of the node with "-tool" behind it.
abbrev pub help_text : List String
help_text = usage ("cellframe-node" <> "-tool")
