-- ===== src/Tool/Wallet.antt =====
-- The handlers of `cellframe-node-tool wallet …` (sources/main_node_tool.c).
pub mod Create
pub mod SeveralKeys
use cellframe_node.Prelude.{
  ℕ, ◌≡◌, Bool, true, false, not, ◌&&◌, ◌||◌, Option, none, some, List, [], ◌∷◌, ltb, ◌==◌, length,
  drop, if◌then◌else◌, is_some, ℤ, pos, negsuc, neg, String,
}
use cellframe_node.Prelude.Text.{◌<>◌, str_eq}
use cellframe_node.Prelude.Number.{atoi}
use cellframe_node.Tool.Calls.{
  Sdk, Dirs, Tool, History, WalletRequest, plain, seeded, multi, helped, printed, wallet_created,
  wallet_opened, ◌>>=◌, ◌>>◌, pure, quit, crash, ask, record_event, call, quit_if, help_quit_if,
  some_or_quit,
}
use cellframe_node.Tool.Arguments.{
  TypesArg, types, unknown_type, deprecated_type, overrun, find_seed, seed_or_quit, parse_types,
}

-- `l_seed_str && *l_seed_str`
abbrev pub nonempty : Option String → Option String
nonempty none = none
nonempty (some s) = if str_eq s "" then none else some s

-- `*argv` from the index on, `none` being the null pointer at `argv[argc]`.
abbrev pub first : List String → Option String
first [] = none
first (a ∷ _) = some a

module _ (sdk : Sdk) (dirs : Dirs) where
  -- The file that stands for the wallet already, if there is one.
  abbrev pub existing_path : String → String
  existing_path name = sdk.wallet_path <> ("/" <> (name <> ".dwallet"))

  -- The call for a wallet with one key.
  unfoldable pub single_request : String → ℕ → Option String → Option String → WalletRequest
  single_request name t sd pass = elim (nonempty sd) [
    | some s ↦ seeded name (dirs.wallet_dir) t s pass
    | none ↦ plain name (dirs.wallet_dir) t pass
  ]

  -- The call for a wallet with the keys that the loop over the types has found.
  unfoldable pub multi_request :
      String → Option String → Option String → TypesArg → Tool WalletRequest
  multi_request name sd pass (types ts) = pure (multi name (dirs.wallet_dir) ts sd pass)
  multi_request name sd pass unknown_type = quit (neg 2007)
  multi_request name sd pass deprecated_type = quit (neg 2008)
  multi_request name sd pass overrun = crash

  -- The calls at the end of `s_wallet_create` and `s_wallet_create_wp`.
  unfoldable pub create_wallet : WalletRequest → Tool ℤ
  create_wallet r = do
    made ← call (λ h. sdk.create_wallet h r) (wallet_created r)
    pure (if made then pos 0 else neg 1)

  -- The tests of the name and of the signature type.
  unfoldable pub check_wallet_args : String → ℕ → Tool (Unit {0})
  check_wallet_args name t = do
    quit_if (not (sdk.isstralnum name)) (neg 2004)
    help_quit_if (t == sdk.sig_type_null) (neg 2004)
    quit_if (sdk.sign_type_is_deprecated t) (neg 2004)

  -- `s_wallet_create`: five arguments at least. The loop for -seed begins at argv[5], that over
  -- the signature types at argv[6].
  unfoldable pub wallet_create : List String → Tool ℤ
  unfolding check_wallet_args single_request multi_request create_wallet
  wallet_create (_ ∷ _ ∷ _ ∷ name ∷ type ∷ rest) = do
    let t = sdk.sign_type_from_str (some type)
    check_wallet_args name t
    sd ← seed_or_quit (find_seed none rest) (neg 2009)
    exists ← ask (λ h. sdk.file_test h (existing_path name))
    quit_if exists (neg 2007)
    quit_if (t == sdk.sig_type_multi_chained && ltb (length rest) 2) (neg 2006)
    r ←
        (if t == sdk.sig_type_multi_chained
          then multi_request name sd none (parse_types sdk sdk.max_enc_keys false (drop 1 rest))
          else pure (single_request name t sd none))
    create_wallet r
  wallet_create _ = do record_event helped; quit (neg 2003)

  -- `s_wallet_create_wp`: five arguments at least, though the signature type is argv[5]. Both
  -- loops begin at argv[6].
  unfoldable pub wallet_create_wp : List String → Tool ℤ
  unfolding check_wallet_args single_request multi_request create_wallet
  wallet_create_wp (_ ∷ _ ∷ _ ∷ name ∷ pass ∷ rest) = do
    let t = sdk.sign_type_from_str (first rest)
    check_wallet_args name t
    sd ← seed_or_quit (find_seed none (drop 1 rest)) (neg 2009)
    exists ← ask (λ h. sdk.file_test h (existing_path name))
    quit_if exists (neg 2007)
    quit_if (not (sdk.check_valid_password pass)) (neg 2008)
    quit_if (t == sdk.sig_type_multi_chained && ltb (length rest) 3) (neg 2006)
    r ←
        (if t == sdk.sig_type_multi_chained
          then multi_request name sd (some pass)
              (parse_types sdk sdk.max_enc_keys false (drop 1 rest))
          else pure (single_request name t sd (some pass)))
    create_wallet r
  wallet_create_wp _ = do record_event helped; quit (neg 2003)

  -- `s_wallet_create_from`
  unfoldable pub wallet_create_from : List String → Tool ℤ
  wallet_create_from _ = pure (neg 1)

  abbrev pub is_positive_below : ℤ → ℕ → Bool
  is_positive_below (pos i) n = ltb 0 i && ltb i n
  is_positive_below (negsuc _) n = false

  -- `s_wallet_sign_file`, which no command runs.
  unfoldable pub wallet_sign_file : List String → Tool ℤ
  wallet_sign_file (_ ∷ _ ∷ _ ∷ name ∷ index ∷ path ∷ _ ∷ _ ∷ _) = do
    opened ← call (λ h. sdk.wallet_open h name dirs.wallet_dir) (λ _. wallet_opened name)
    help_quit_if (not (is_some opened)) (neg 3001)
    w ← some_or_quit opened (neg 3001)
    help_quit_if (not (is_positive_below (atoi index) (sdk.wallet_certs_number w))) (neg 3002)
    readable ← ask (λ h. sdk.can_read h path)
    quit_if readable (pos 0)
    pure (pos 0)
  wallet_sign_file _ = do record_event helped; quit (neg 3000)

  -- The wallet's file, as `s_wallet_pkey_show` names it.
  abbrev pub wallet_file : String → String
  wallet_file name = dirs.wallet_dir <> ("/" <> (name <> ".dwallet"))

  -- What `s_wallet_pkey_show` tries when the wallet does not open without a password.
  unfoldable pub open_protected : String → Option String → Tool ℕ
  open_protected name pass = do
    exists ← ask (λ h. sdk.access h (wallet_file name))
    quit_if (not exists) (neg 136)
    given ← some_or_quit pass (neg 134)
    opened ← call (λ h. sdk.wallet_open_file h (wallet_file name) given) (λ _. wallet_opened name)
    some_or_quit opened (neg 134)

  unfoldable pub open_or_protected : String → Option String → Tool ℕ
  unfolding open_protected
  open_or_protected name pass = do
    opened ← call (λ h. sdk.wallet_open h name dirs.wallet_dir) (λ _. wallet_opened name)
    elim opened [ some w ↦ pure w | none ↦ open_protected name pass ]

  unfoldable pub show_wallet_hash : String → Option String → Tool ℤ
  unfolding open_or_protected
  show_wallet_hash name pass = do
    w ← open_or_protected name pass
    hash ← some_or_quit (sdk.wallet_pkey_hash w) (neg 135)
    record_event (printed (hash <> "\n"))
    pure (pos 0)

  -- `s_wallet_pkey_show`: five arguments, or six with a password.
  unfoldable pub wallet_pkey_show : List String → Tool ℤ
  unfolding show_wallet_hash
  wallet_pkey_show (_ ∷ _ ∷ _ ∷ _ ∷ name ∷ []) = show_wallet_hash name none
  wallet_pkey_show (_ ∷ _ ∷ _ ∷ _ ∷ name ∷ pass ∷ []) = show_wallet_hash name (some pass)
  wallet_pkey_show _ = quit (neg 800)

  -- `s_wallet_pkey_show_full`
  unfoldable pub wallet_pkey_show_full : List String → Tool ℤ
  wallet_pkey_show_full (_ ∷ _ ∷ _ ∷ _ ∷ name ∷ []) = do
    opened ← call (λ h. sdk.wallet_open h name dirs.wallet_dir) (λ _. wallet_opened name)
    w ← some_or_quit opened (neg 134)
    hash ← some_or_quit (sdk.wallet_pkey_hash w) (neg 135)
    record_event (printed ("hash: " <> (hash <> ("\npkey: " <> (sdk.wallet_pkey_str w <> "\n")))))
    pure (pos 0)
  wallet_pkey_show_full _ = quit (neg 800)
