-- ===== src/Conftool/Script.antt =====
-- The commands of conftool by their names (conftool/commands/AbstractCommand.cpp), and how a list
-- of them is read and run (conftool/main.cpp).
pub mod Lifting
pub mod Vars
pub mod Assigned
pub mod Dry
pub mod Blocks
pub mod Source
pub mod Settings
pub mod Reading
use cellframe_node.Prelude.{
  ℕ, Bool, true, false, not, ◌&&◌, ◌||◌, Option, none, some, List, [], ◌∷◌, ◌++◌, if◌then◌else◌,
}
use cellframe_node.Prelude.Bytes.{Bytes, codes, same, is_empty, is_space, tokenize}
use cellframe_node.Conftool.World.{
  Host, Run, World, ◌>>=◌, ◌>>◌, pure, throw, undefined_behaviour, contents,
}
use cellframe_node.Conftool.ConfigFile.{strip, read_lines}
use cellframe_node.Conftool.Network.{NetworkCommand, new_network, execute_network}
use cellframe_node.Conftool.Config.{ConfigCommand, new_config, execute_config}
use cellframe_node.Conftool.Template.{TemplateCommand, new_template, execute_template}
use cellframe_node.Conftool.Service.{
  NetFilter, new_net_list, execute_net_list, new_service, execute_service,
}
use cellframe_node.Conftool.Control.Posix.{control_for}
use cellframe_node.Conftool.Condition.{
  Condition, new_condition, execute_condition, VariableCommand, new_variable, execute_variable,
}

-- The classes of `CAbstractScriptCommand`.
pub data Command : Type 0 where
  network : NetworkCommand → Command
  net_list : NetFilter → Command
  config : ConfigCommand → Command
  fromtemplate : TemplateCommand → Command
  service : Bytes → Command
  var : VariableCommand → Command
  if_open : Condition → Command
  endif : Command

-- `is_condition_open` and `is_condition_close`
pub data Role : Type 0 where
  opens : Condition → Role
  closes plain : Role

unfoldable pub role_of : Command → Role
role_of (if_open cond) = opens cond
role_of endif = closes
role_of (network c) = plain
role_of (net_list filter) = plain
role_of (config c) = plain
role_of (fromtemplate c) = plain
role_of (service action) = plain
role_of (var c) = plain

-- `registry()[name]`
unfoldable pub instantiate : Bytes → List Bytes → List Bytes → Run Command
unfolding same new_network new_net_list new_config new_template new_service new_variable
    new_condition
instantiate name args tokens =
    if same name (codes "network")
    then (do c ← new_network tokens; pure (network c))
    else if same name (codes "net_list")
    then (do c ← new_net_list tokens; pure (net_list c))
    else if same name (codes "config")
    then (do c ← new_config tokens; pure (config c))
    else if same name (codes "fromtemplate")
    then (do c ← new_template tokens; pure (fromtemplate c))
    else if same name (codes "service")
    then (do c ← new_service tokens; pure (service c))
    else if same name (codes "var")
    then (do c ← new_variable args; pure (var c))
    else if same name (codes "if")
    then (do c ← new_condition args; pure (if_open c))
    else if same name (codes "endif")
    then pure endif
    else throw

-- `CAbstractScriptCommand::build` on the tokens, and `parse_line_to_cmd`: a name that is not
-- registered is an error, and no tokens are undefined behaviour (`tokens[0]`).
unfoldable pub build : List Bytes → Run Command
unfolding instantiate
build [] = undefined_behaviour
build (name ∷ args) = instantiate name args (name ∷ args)

unfoldable pub parse_line_to_cmd : Bytes → Run Command
unfolding build tokenize
parse_line_to_cmd line = build (tokenize is_space line)

-- `parse_setup_file`, on the file's lines.
unfoldable pub parse_lines : List Bytes → Run (List Command)
unfolding parse_line_to_cmd
parse_lines [] = pure []
parse_lines (l ∷ ls) =
    if is_empty (strip l)
    then parse_lines ls
    else (do c ← parse_line_to_cmd (strip l); cs ← parse_lines ls; pure (c ∷ cs))

module _ (host : Host) where
  -- `execute`; of the classes that open or close a condition only the first is asked.
  unfoldable pub execute : Bool → Command → Run Bool
  unfolding execute_network execute_net_list execute_config execute_template execute_service
      control_for execute_variable execute_condition
  execute dry (network c) = execute_network host dry c
  execute dry (net_list filter) = execute_net_list host filter
  execute dry (config c) = execute_config host dry c
  execute dry (fromtemplate c) = execute_template host dry c
  execute dry (service action) = execute_service (control_for host host.platform) action
  execute dry (var c) = execute_variable c
  execute dry (if_open c) = execute_condition c
  execute dry endif = pure true

  -- A command that is no condition, under the innermost condition of the stack.
  unfoldable pub run_guarded : Bool → List Condition → Command → Run (Unit {0})
  unfolding execute execute_condition
  run_guarded dry [] c = do execute dry c; pure tt
  run_guarded dry (cond ∷ _) c = do
    passed ← execute_condition cond
    (if passed then (do execute dry c; pure tt) else pure tt)

  -- One turn of the loop of `run_commands`: from the condition stack, the innermost first, to the
  -- stack behind it. `pop_back` on an empty stack is undefined.
  unfoldable pub run_step : Bool → Role → List Condition → Command → Run (List Condition)
  unfolding run_guarded
  run_step dry (opens cond) stack c = pure (cond ∷ stack)
  run_step dry closes [] c = undefined_behaviour
  run_step dry closes (cond ∷ stack) c = pure stack
  run_step dry plain stack c = do run_guarded dry stack c; pure stack

  unfoldable pub run_commands : Bool → List Condition → List Command → Run (Unit {0})
  unfolding run_step role_of
  run_commands dry stack [] = pure tt
  run_commands dry stack (c ∷ cs) = do
    stack' ← run_step dry (role_of c) stack c
    run_commands dry stack' cs
