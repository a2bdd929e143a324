-- ===== src/Tool/Dispatch/Folder.antt =====
-- `cellframe-node-tool -B DIR …`: `main` counts the two words twice.
use cellframe_node.Prelude.{◌≡◌, refl, true, false, List, [], ◌∷◌, ◌++◌, arith, ℤ, pos, neg, String}
use cellframe_node.Process.{Outcome, ret, exit, fault}
use cellframe_node.Tool.Calls.{Sdk, Dirs, History, helped}
use cellframe_node.Tool.Init.{Setup, init}
use cellframe_node.Tool.Dispatch.{Command, tool_main}
use cellframe_node.Tool.Dispatch.Table.{command_words, is_known, find_command_unknown}

-- The first of the words, if there is one, is not the first word of a command.
abbrev pub BeginsNoCommand : List String → Type 0
BeginsNoCommand [] = Unit
BeginsNoCommand (w ∷ _) = is_known w ≡ false

module _ (sdk : Sdk) (h : History) where
  -- No handler has run: the tool reports an unknown command, or it reads a null pointer.
  abbrev pub RunsNothing : Outcome ℤ × History → Type 0
  RunsNothing (ret r, h') = (r ≡ neg 2) × (h' ≡ helped ∷ h)
  RunsNothing (exit c, h') = ⊥
  RunsNothing (fault, h') = h' ≡ h

  module _ (setup : Setup) (program dir : String) {dirs : Dirs} where
    module _ (valid : setup.dir_test dir ≡ true) (ready : init setup dir ≡ ret (pos 0, dirs)) where
      -- The first two words behind the folder are not looked at.
      runs_nothing :
          (a b : String) (rest : List String)
          → BeginsNoCommand rest
          → RunsNothing (tool_main sdk setup (program ∷ "-B" ∷ dir ∷ a ∷ b ∷ rest) h)
      unfolding tool_main
      runs_nothing a b [] other = rw (valid, ready) (ground arith)
      runs_nothing a b (word ∷ words) other =
          rw (valid, ready) (rw (find_command_unknown (neg 2) word words other) (ground arith))

      -- With -B and a valid folder in front, no command runs its handler, unless the first
      -- argument behind the command is "wallet" or "cert" itself: the search for the command
      -- begins two words too far, and shows the help text and returns -2, or reads through the
      -- null pointer behind the last argument.
      pub tool_main_folder-RunsNothing :
          (c : Command) (more : List String)
          → BeginsNoCommand more
          → RunsNothing (tool_main sdk setup (program ∷ "-B" ∷ dir ∷ (command_words c ++ more)) h)
      tool_main_folder-RunsNothing Command.wallet_pkey_show more other =
          runs_nothing "wallet" "pkey" ("show" ∷ more) refl
      tool_main_folder-RunsNothing Command.wallet_pkey_show_full more other =
          runs_nothing "wallet" "pkey" ("show_full" ∷ more) refl
      tool_main_folder-RunsNothing Command.cert_pkey_show more other =
          runs_nothing "cert" "pkey" ("show" ∷ more) refl
      tool_main_folder-RunsNothing Command.cert_pkey_show_full more other =
          runs_nothing "cert" "pkey" ("show_full" ∷ more) refl
      tool_main_folder-RunsNothing Command.cert_get_addr more other =
          runs_nothing "cert" "addr" ("show" ∷ more) refl
      tool_main_folder-RunsNothing _ more other = runs_nothing _ _ more other
