-- ===== src/Conftool/Network.antt =====
-- `network NAME default|ensure|check on|off` (conftool/commands/NetworkCommand.cpp).
pub mod Outcome
pub mod Paths
pub mod Settled
use cellframe_node.Prelude.{
  ℕ, Bool, true, false, not, ◌&&◌, ◌||◌, Option, none, some, List, [], ◌∷◌, if◌then◌else◌,
}
use cellframe_node.Prelude.Bytes.{Bytes, codes, same}
use cellframe_node.Conftool.World.{
  Host, Run, ◌>>=◌, ◌>>◌, pure, throw, throw_if, some_or_throw, print, noted, in_both, is_already,
  user_configured, set_up, is_settled, moves, copies, variables, file_exists, copy_new, rename,
  net_state,
}
use cellframe_node.Conftool.Path.{NetworkConfigState, general, on, off, template, config_path}

-- `action` with `default_val`, which is "on" if the Boolean is true, else "off".
pub data NetAction : Type 0 where
  default ensure : Bool → NetAction
  check : NetAction

pub record NetworkCommand : Type 0 where
  pub net_name : Bytes
  pub action : NetAction

-- `cmd_tokens[3]`, if it is there and an allowed state.
unfoldable pub allowed_state : List Bytes → Option Bool
allowed_state (word ∷ _) =
    if same word (codes "on")
    then some true
    else if same word (codes "off")
    then some false
    else none
allowed_state [] = none

unfoldable pub parse_action : Bytes → List Bytes → Run NetAction
unfolding allowed_state
parse_action word rest =
    if same word (codes "default")
    then (do value ← some_or_throw (allowed_state rest); pure (default value))
    else if same word (codes "ensure")
    then (do value ← some_or_throw (allowed_state rest); pure (ensure value))
    else if same word (codes "check")
    then pure check
    else throw

-- The constructor, on the tokens.
unfoldable pub new_network : List Bytes → Run NetworkCommand
unfolding parse_action
new_network (_ ∷ name ∷ word ∷ rest) = do
  vars ← variables
  known ← file_exists (config_path name general template vars)
  throw_if (not known)
  action ← parse_action word rest
  pure (record { net_name = name; action = action })
new_network _ = throw

abbrev pub state_of : Bool → NetworkConfigState
state_of true = on
state_of false = off

module _ (host : Host) where
  -- The network's file for this state, the other state's, and the template.
  unfoldable pub default_net : Bool → Bool → Bytes → Bytes → Bytes → Bytes → Run Bool
  default_net dry enable name requested opposite from = do
    there ← file_exists requested
    other ← file_exists opposite
    (if other && there
        then (do print (noted (in_both name)); pure false)
        else if there
        then (do print (noted (is_already name enable)); pure true)
        else if other
        then (do print (noted (user_configured name)); pure false)
        else (do
          print (noted (set_up name enable from))
          (if dry then pure tt else copy_new host from requested)
          pure true))

  unfoldable pub ensure_net : Bool → Bool → Bytes → Bytes → Bytes → Bytes → Run Bool
  ensure_net dry enable name requested opposite from = do
    there ← file_exists requested
    other ← file_exists opposite
    (if enable && there
        then (do print (noted (is_settled name enable)); pure false)
        else if not enable && (not other && there)
        then (do print (noted (is_settled name enable)); pure false)
        else if other
        then (do
          print (noted (moves enable opposite requested))
          (if dry then pure tt else rename host opposite requested)
          pure true)
        else (do
          print (noted (copies enable from requested))
          (if dry then pure tt else copy_new host from requested)
          pure true))

  -- `actions[action]()`
  abbrev pub run_action : Bool → (NetworkConfigState → Bytes) → Bytes → NetAction → Run Bool
  run_action dry path name (default enable) =
      default_net dry enable name (path (state_of enable)) (path (state_of (not enable)))
        (path template)
  run_action dry path name (ensure enable) =
      ensure_net dry enable name (path (state_of enable)) (path (state_of (not enable)))
        (path template)
  run_action dry path name check = do
    enabled ← file_exists (path on)
    print (net_state name enabled)
    pure true

  unfoldable pub execute_network : Bool → NetworkCommand → Run Bool
  unfolding default_net ensure_net
  execute_network dry c = do
    vars ← variables
    run_action dry (λ state. config_path c.net_name general state vars) c.net_name c.action
