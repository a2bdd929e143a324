-- ===== src/Conftool/Examples/Commands.antt =====
-- Runs of conftool's scripts and of its `main`.
use cellframe_node.Prelude.{◌≡◌, refl, true, false, none, some, List, [], ◌∷◌, map}
use cellframe_node.Prelude.Bytes.{Bytes, codes, same, is_space, tokenize}
use cellframe_node.Conftool.World.{raised}
use cellframe_node.Conftool.ConfigFile.{read_lines, strip}
use cellframe_node.Conftool.Script.{
  Command, var, run_commands, service, if_open, endif, parse_line_to_cmd,
}
use cellframe_node.Conftool.Script.Blocks.{
  Script, end, command, block, commands, is_nested, run_script, run_commands-commands,
}
use cellframe_node.Conftool.Script.Assigned.{find_var-run_commands}
use cellframe_node.Conftool.Condition.{Condition, equal}
use cellframe_node.Conftool.Main.{conftool_main, init_configs, split_commands, asks, option_exists}
use cellframe_node.Conftool.Main.Outcome.{Keeps-conftool_main, announced, init_configs-raised}
use cellframe_node.Conftool.Main.Words.{split_commands-joined, joined, are_commands}
use cellframe_node.Prelude.Bytes.Spaced.{no_space}
use cellframe_node.Conftool.Examples.{host, world}
use cellframe_node.Prelude.{arith}
use cellframe_node.Prelude.Bytes.{replace_all}
use cellframe_node.Conftool.World.{Vars}
use cellframe_node.Conftool.Variables.{substitute_variables}
use cellframe_node.Conftool.Variables.Pieces.{Piece, literal, named, render, is_plain_text}
use cellframe_node.Conftool.Variables.Storage.{is_ordered, find_var}
use cellframe_node.Conftool.Variables.Substitution.{
  are_plain_vars, render_with, substitute_variables-render,
}
use cellframe_node.Conftool.Service.{remove_loop, only_off, net_infos}
use cellframe_node.Conftool.Service.Names.{
  needle, remove_loop-removed, Network, no_dots, infos_of, net_infos-files,
}

abbrev on_linux : Condition
on_linux = record { cond_op = equal; arg1 = codes "${HOST_OS}"; arg2 = codes "Linux" }

abbrev script : Script
script =
    block on_linux (command (service (codes "stop")) end) (command (service (codes "start")) end)

script-nested : is_nested script ≡ true
unfolding is_nested
script-nested = refl

run_commands-commands_example :
    run_commands host false []
      (if_open on_linux ∷ service (codes "stop") ∷ endif ∷ service (codes "start") ∷ [])
      world
    ≡ run_script host false none script world
unfolding commands
run_commands-commands_example = run_commands-commands host false script world script-nested

abbrev dry_words : List Bytes
dry_words = codes "conftool" ∷ codes "-d" ∷ codes "-e" ∷ codes "service" ∷ codes "stop" ∷ []

dry_words-dry : asks dry_words (codes "--dryrun") (codes "-d") ≡ true
unfolding option_exists
dry_words-dry = refl

Keeps-conftool_main_example : (conftool_main host dry_words world).1.files ≡ world.files
Keeps-conftool_main_example = Keeps-conftool_main host dry_words dry_words-dry world

setup-there : world.files (codes "setup") ≡ some (codes "service stop\nfrobnicate\n")
unfolding same
setup-there = refl

init_configs-raised_example :
    init_configs host false (codes "setup") world ≡ (raised, announced world)
unfolding parse_line_to_cmd strip read_lines
init_configs-raised_example =
    init_configs-raised host false (codes "setup") (codes "service stop\nfrobnicate\n")
      (codes "service stop" ∷ []) (codes "frobnicate") [] world refl setup-there refl refl refl

split_commands-joined_example :
    map (tokenize is_space) (
      split_commands []
        (codes "service" ∷ codes "stop" ∷ codes "and" ∷ codes "service" ∷ codes "start" ∷ []))
    ≡ (codes "service" ∷ codes "stop" ∷ []) ∷ (codes "service" ∷ codes "start" ∷ []) ∷ []
unfolding joined are_commands no_space
split_commands-joined_example =
    split_commands-joined (codes "service" ∷ codes "stop" ∷ [])
      ((codes "service" ∷ codes "start" ∷ []) ∷ []) refl refl

-- A script that sets a variable, under a condition, and asks for the service.
abbrev setting : List Command
setting =
    if_open on_linux
    ∷ var (record { var = codes "PORT"; val = codes "${HOST_OS}80" })
    ∷ endif
    ∷ service (codes "stop")
    ∷ []

find_var-run_commands_example :
    find_var (codes "HOST_OS") (run_commands host false [] setting world).1.vars
    ≡ find_var (codes "HOST_OS") world.vars
unfolding same
find_var-run_commands_example =
    find_var-run_commands host false (codes "HOST_OS") [] setting world
      (refl, (refl, (refl, (refl, tt))))

abbrev some_vars : Vars
some_vars = (codes "A", codes "1") ∷ (codes "AB", codes "two") ∷ []

abbrev pieces_of_text : List Piece
pieces_of_text =
    literal (codes "x=") ∷ named (codes "AB") ∷ named (codes "A") ∷ named (codes "B") ∷ []

some_vars-ordered : is_ordered some_vars ≡ true
unfolding is_ordered
some_vars-ordered = refl

some_vars-plain : are_plain_vars some_vars ≡ true
unfolding are_plain_vars
some_vars-plain = refl

pieces_of_text-plain : is_plain_text pieces_of_text ≡ true
unfolding is_plain_text
pieces_of_text-plain = refl

substitute_variables-render_example :
    substitute_variables some_vars (codes "x=${AB}${A}${B}") ≡ codes "x=two1${B}"
unfolding render render_with
substitute_variables-render_example =
    substitute_variables-render some_vars pieces_of_text some_vars-ordered some_vars-plain
      pieces_of_text-plain

remove_loop-removed_example :
    remove_loop 6 (needle b'.' (codes "cfg")) 0 (codes "a.cfg") ≡ some (codes "a")
unfolding replace_all
remove_loop-removed_example = remove_loop-removed b'.' (codes "cfg") 6 (codes "a.cfg") (omega arith)

abbrev networks : List Network
networks = (codes "riemann", true) ∷ (codes "raiden", false) ∷ []

networks-no_dots : no_dots networks ≡ true
unfolding no_dots
networks-no_dots = refl

net_infos-files_example :
    net_infos only_off ((codes "riemann.cfg", true) ∷ (codes "raiden.cfg.dis", true) ∷ [])
    ≡ (codes "raiden", codes "off") ∷ []
unfolding infos_of
net_infos-files_example = net_infos-files only_off networks networks-no_dots
