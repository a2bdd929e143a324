-- ===== src/Tool/Wallet/SeveralKeys.antt =====
-- Which words `wallet create` reads when the signature type asks for several keys.
use cellframe_node.Prelude.{
  ℕ, zero, suc, ◌∙◌, ◌≤◌, ◌<◌, ◌≡◌, false, Option, none, some, List, [], ◌∷◌, arith, length, drop,
  neg, String, All,
}
use cellframe_node.Process.{exit}
use cellframe_node.Tool.Calls.{Sdk, Dirs, History, ◌>>=◌}
use cellframe_node.Tool.Arguments.{seed, find_seed, unknown_type, parse_types, type_of}
use cellframe_node.Tool.Arguments.Seed.{IsWord, find_seed_word, find_seed_given}
use cellframe_node.Tool.Wallet.{multi_request, create_wallet, wallet_create}
use cellframe_node.Tool.Wallet.Create.{MayCreate}

module _ (sdk : Sdk) (dirs : Dirs) (h : History) (a b c name type : String) where
  -- The word behind sig_multi_chained (argv[5]) is not read as a signature type, though the help
  -- text has the second type there: any two words that are not -seed give the same run.
  pub wallet_create_skips_word :
      (v w : String) (rest : List String)
      → type_of sdk type ≡ sdk.sig_type_multi_chained
      → IsWord v
      → IsWord w
      → wallet_create sdk dirs (a ∷ b ∷ c ∷ name ∷ type ∷ v ∷ rest) h
        ≡ wallet_create sdk dirs (a ∷ b ∷ c ∷ name ∷ type ∷ w ∷ rest) h
  unfolding wallet_create
  wallet_create_skips_word v w rest m wv ww =
      rw (find_seed_word none v rest wv, find_seed_word none w rest ww) (ground arith)

  -- The run up to the loop over the signature types.
  wallet_create_loop :
      (sd : Option String) (rest : List String)
      → type_of sdk type ≡ sdk.sig_type_multi_chained
      → MayCreate sdk dirs h name (type_of sdk type)
      → find_seed none rest ≡ seed sd
      → 2 ≤ length rest
      → wallet_create sdk dirs (a ∷ b ∷ c ∷ name ∷ type ∷ rest) h
        ≡ (multi_request sdk dirs name sd none
                (parse_types sdk sdk.max_enc_keys false (drop 1 rest))
              >>= create_wallet sdk dirs)
            h
  unfolding wallet_create
  wallet_create_loop sd rest m may s len = rw s (ground arith)

  module _ (v : String) (rest : List String) where
    parse_types_unknown :
        (room : ℕ)
        → 0 < room
        → IsWord v
        → type_of sdk v ≡ sdk.sig_type_null
        → parse_types sdk room false (v ∷ rest) ≡ unknown_type
    unfolding parse_types
    parse_types_unknown zero room wv nul = absurd (omega arith)
    parse_types_unknown (suc n) room wv nul = ground arith

    -- With -seed directly behind sig_multi_chained, where the help text has it, the value of
    -- -seed is read as a signature type: unless it is the name of one, the tool exits with -2007.
    pub wallet_create_seed_read_as_type :
        type_of sdk type ≡ sdk.sig_type_multi_chained
        → MayCreate sdk dirs h name (type_of sdk type)
        → 0 < sdk.max_enc_keys
        → All IsWord (v ∷ rest)
        → type_of sdk v ≡ sdk.sig_type_null
        → wallet_create sdk dirs (a ∷ b ∷ c ∷ name ∷ type ∷ "-seed" ∷ v ∷ rest) h
          ≡ (exit (neg 2007), h)
    unfolding multi_request
    wallet_create_seed_read_as_type m may room words nul =
        wallet_create_loop (some v) ("-seed" ∷ v ∷ rest) m may
          (find_seed_given none v [] rest tt words.1) (omega arith)
        ∙ rw (parse_types_unknown sdk.max_enc_keys room words.0 nul)
