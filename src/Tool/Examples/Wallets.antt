-- ===== src/Tool/Examples/Wallets.antt =====
-- The tool's wallet commands over the small SDK.
use cellframe_node.Prelude.{none, some, List, [], ◌∷◌, String}
use cellframe_node.Tool.Arguments.Seed.{seed_values}
use cellframe_node.Tool.Wallet.{wallet_create, wallet_create_wp}
use cellframe_node.Tool.Wallet.Create.{
  CreateOutcome, UnderPassword, wallet_create-CreateOutcome, wallet_create_wp-CreateOutcome,
}
use cellframe_node.Tool.Examples.{small_sdk, small_dirs}

abbrev multi_argv : List String
multi_argv =
    "t" ∷ "wallet" ∷ "create" ∷ "w1" ∷ "sig_multi_chained" ∷ "sig_dil" ∷ "sig_falcon" ∷ "-seed"
    ∷ "abc" ∷ []

wallet_create-CreateOutcome_example :
    CreateOutcome small_sdk small_dirs [] "w1" 9 none
      (some "abc")
      ("sig_dil" ∷ "sig_falcon" ∷ "-seed" ∷ "abc" ∷ [])
      (wallet_create small_sdk small_dirs multi_argv [])
unfolding seed_values
wallet_create-CreateOutcome_example =
    wallet_create-CreateOutcome small_sdk small_dirs [] "t" "wallet" "create" "w1"
      "sig_multi_chained" ("sig_dil" ∷ "sig_falcon" ∷ "-seed" ∷ "abc" ∷ [])

abbrev wp_argv : List String
wp_argv = "t" ∷ "wallet" ∷ "create_wp" ∷ "w1" ∷ "secret" ∷ "sig_dil" ∷ "-seed" ∷ "abc" ∷ []

wallet_create_wp-CreateOutcome_example :
    let out = wallet_create_wp small_sdk small_dirs wp_argv [] in
    CreateOutcome small_sdk small_dirs [] "w1" 1
      (some "secret")
      (some "abc")
      ("sig_dil" ∷ "-seed" ∷ "abc" ∷ [])
      out
    × UnderPassword small_sdk small_dirs [] "secret" out
unfolding seed_values
wallet_create_wp-CreateOutcome_example =
    wallet_create_wp-CreateOutcome small_sdk small_dirs [] "t" "wallet" "create_wp" "w1" "secret"
      ("sig_dil" ∷ "-seed" ∷ "abc" ∷ [])
