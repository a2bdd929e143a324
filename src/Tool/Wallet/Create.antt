-- ===== src/Tool/Wallet/Create.antt =====
-- What `wallet create` and `wallet create_wp` do on every branch.
use cellframe_node.Prelude.{
  ℕ, ◌≤◌, ◌≡◌, refl, ◌≢◌, ◌⊎◌, subst, inl, inr, true, false, Option, none, some, List, ◌∷◌, map,
  arith, length, drop, if◌then◌else◌, ℤ, pos, neg, String, All,
}
use cellframe_node.Prelude.Text.{eq_iff}
use cellframe_node.Process.{Outcome, ret, exit, fault, exit_status}
use cellframe_node.Tool.Calls.{
  Sdk, Dirs, History, ◌>>=◌, WalletRequest, plain, seeded, multi, helped, wallet_created,
}
use cellframe_node.Tool.Arguments.{
  SeedArg-cases, TypesArg, types, unknown_type, deprecated_type, overrun, seed, find_seed,
  parse_types, Accepted, parse_types_sound, type_of, sig_words,
}
use cellframe_node.Tool.Arguments.Seed.{Used, given_seed, find_seed-given_seed}
use cellframe_node.Tool.Wallet.{
  first, existing_path, single_request, multi_request, create_wallet, wallet_create,
  wallet_create_wp,
}

module _ (sdk : Sdk) (dirs : Dirs) (h : History) where
  -- Before a wallet is made: its name has digits and letters only, its signature type is known
  -- and current, and it has no file yet.
  pub record MayCreate (name : String) (t : ℕ) : Type 0 where
    pub alnum : sdk.isstralnum name ≡ true
    pub accepted : Accepted sdk t
    pub free : sdk.file_test h (existing_path sdk dirs name) ≡ false

  -- The call that the arguments ask for. The seed that they give goes into it as it is for several
  -- keys, and if it is not empty for one.
  abbrev pub Asked :
      String → ℕ → Option String → Option String → List String → WalletRequest → Type 0
  Asked name t pass given rest (plain n d u p) =
      (n ≡ name)
      × (d ≡ dirs.wallet_dir)
      × (u ≡ t)
      × (p ≡ pass)
      × (t ≢ sdk.sig_type_multi_chained)
      × Used given none
  Asked name t pass given rest (seeded n d u s p) =
      (n ≡ name)
      × (d ≡ dirs.wallet_dir)
      × (u ≡ t)
      × (p ≡ pass)
      × (t ≢ sdk.sig_type_multi_chained)
      × Used given (some s)
  Asked name t pass given rest (multi n d ts s p) =
      (n ≡ name)
      × (d ≡ dirs.wallet_dir)
      × (t ≡ sdk.sig_type_multi_chained)
      × (p ≡ pass)
      × (s ≡ given)
      × (ts ≡ map (type_of sdk) (sig_words false (drop 1 rest)))
      × All (Accepted sdk) ts
      × (length ts ≤ sdk.max_enc_keys)

  -- What a call of the handler may come to.
  abbrev pub CreateOutcome :
      String → ℕ → Option String → Option String → List String → Outcome ℤ × History → Type 0
  CreateOutcome name t pass given rest (ret r, wallet_created q made ∷ h') =
      (h' ≡ h)
      × (made ≡ sdk.create_wallet h q)
      × (r ≡ (if made then pos 0 else neg 1))
      × Asked name t pass given rest q
      × MayCreate name t
  CreateOutcome name t pass given rest (ret r, _) = ⊥
  CreateOutcome name t pass given rest (exit c, h') =
      ((h' ≡ h) ⊎ (h' ≡ helped ∷ h)) × (exit_status c ≢ 0)
  CreateOutcome name t pass given rest (fault, h') =
      (h' ≡ h)
      × (t ≡ sdk.sig_type_multi_chained)
      × (parse_types sdk sdk.max_enc_keys false (drop 1 rest) ≡ overrun)

  -- The two ends of the handlers: several keys, and one.
  multi_outcome :
      (name : String) (t : ℕ) (sd pass : Option String) (rest : List String) (found : TypesArg)
      → parse_types sdk sdk.max_enc_keys false (drop 1 rest) ≡ found
      → t ≡ sdk.sig_type_multi_chained
      → MayCreate name t
      → CreateOutcome name t pass sd rest
          ((multi_request sdk dirs name sd pass found >>= create_wallet sdk dirs) h)
  unfolding multi_request create_wallet exit_status
  multi_outcome name t sd pass rest (types ts) e m may =
      ground (arith, parse_types_sound sdk sdk.max_enc_keys false (drop 1 rest) ts e)
  multi_outcome name t sd pass rest unknown_type e m may = ground arith
  multi_outcome name t sd pass rest deprecated_type e m may = ground arith
  multi_outcome name t sd pass rest overrun e m may = ground arith

  single_outcome :
      (name : String) (t : ℕ) (sd pass : Option String) (rest : List String)
      → t ≢ sdk.sig_type_multi_chained
      → MayCreate name t
      → CreateOutcome name t pass sd rest
          (create_wallet sdk dirs (single_request sdk dirs name t sd pass) h)
  unfolding single_request create_wallet
  single_outcome name t none pass rest m may = ground arith
  single_outcome name t (some s) pass rest m may = ground (arith, eq_iff s "")

  -- The outcome where the loop for -seed ends with these values.
  create_seeded :
      (a b c name type : String) (rest : List String) (sd : Option String)
      → find_seed none rest ≡ seed sd
      → CreateOutcome name
          (type_of sdk type)
          none
          sd
          rest
          (wallet_create sdk dirs (a ∷ b ∷ c ∷ name ∷ type ∷ rest) h)
  unfolding wallet_create exit_status
  create_seeded a b c name type rest sd e =
      let found = parse_types sdk sdk.max_enc_keys false (drop 1 rest) in
      ground (
        arith,
        multi_outcome name (type_of sdk type) sd none rest found refl,
        single_outcome name (type_of sdk type) sd none rest,
      )

  -- `wallet create` with five arguments or more ends in one of three ways. It returns behind one
  -- call that creates the wallet: 0 if that succeeds, else -1. The name is alphanumeric, the type of
  -- argv[4] is known and current, and there was no wallet file. The call has that name, the folder of
  -- the wallets, and no password. For a type of one key it has this type, and the last value of a
  -- -seed from argv[5] on as the seed, if there is one and it is not empty. For several keys it has
  -- this value, as it is, and the types of the words from argv[6] on but for each -seed there and the
  -- word behind it, whatever stands at argv[5]: each is known and current, and there are no more than
  -- the array holds. Or the handler exits with a status other than 0 and has created nothing. Or it
  -- writes behind the array of types.
  pub wallet_create-CreateOutcome :
      (a b c name type : String) (rest : List String)
      → CreateOutcome name
          (type_of sdk type)
          none
          (given_seed rest)
          rest
          (wallet_create sdk dirs (a ∷ b ∷ c ∷ name ∷ type ∷ rest) h)
  unfolding wallet_create exit_status
  wallet_create-CreateOutcome a b c name type rest =
      let t = type_of sdk type in
      elim (SeedArg-cases (find_seed none rest)) [
        | inl e ↦ ground arith
        | inr (sd, e) ↦
            subst
              (λ given.
                CreateOutcome name t none given rest
                  (wallet_create sdk dirs (a ∷ b ∷ c ∷ name ∷ type ∷ rest) h))
              (find_seed-given_seed sd rest e) (create_seeded a b c name type rest sd e)
      ]

  -- A wallet is made only under a password with valid characters.
  abbrev pub UnderPassword : String → Outcome ℤ × History → Type 0
  UnderPassword pass (ret r, h') = sdk.check_valid_password pass ≡ true
  UnderPassword pass _ = Unit

  -- The outcomes where the loop for -seed ends with these values.
  create_wp_seeded :
      (a b c name pass : String) (rest : List String) (sd : Option String)
      → find_seed none (drop 1 rest) ≡ seed sd
      → let out = wallet_create_wp sdk dirs (a ∷ b ∷ c ∷ name ∷ pass ∷ rest) h in
        CreateOutcome name (sdk.sign_type_from_str (first rest)) (some pass) sd rest out
        × UnderPassword pass out
  unfolding wallet_create_wp exit_status
  create_wp_seeded a b c name pass rest sd e =
      let t = sdk.sign_type_from_str (first rest) in
      let found = parse_types sdk sdk.max_enc_keys false (drop 1 rest) in
      ground (
        arith,
        multi_outcome name t sd (some pass) rest found refl,
        single_outcome name t sd (some pass) rest,
      )

  -- `wallet create_wp` with five arguments or more ends in the same three ways, with the password
  -- handed on to the call, the signature type read from argv[5] (a null pointer, if there are five),
  -- and nothing made unless the password has valid characters only. Both the values of -seed and the
  -- types of several keys are those from argv[6] on.
  pub wallet_create_wp-CreateOutcome :
      (a b c name pass : String) (rest : List String)
      → let out = wallet_create_wp sdk dirs (a ∷ b ∷ c ∷ name ∷ pass ∷ rest) h in
        CreateOutcome name
          (sdk.sign_type_from_str (first rest))
          (some pass)
          (given_seed (drop 1 rest))
          rest
          out
        × UnderPassword pass out
  unfolding wallet_create_wp exit_status
  wallet_create_wp-CreateOutcome a b c name pass rest =
      let t = sdk.sign_type_from_str (first rest) in
      elim (SeedArg-cases (find_seed none (drop 1 rest))) [
        | inl e ↦ ground arith
        | inr (sd, e) ↦
            subst
              (λ given.
                let out = wallet_create_wp sdk dirs (a ∷ b ∷ c ∷ name ∷ pass ∷ rest) h in
                CreateOutcome name t (some pass) given rest out × UnderPassword pass out)
              (find_seed-given_seed sd (drop 1 rest) e) (create_wp_seeded a b c name pass rest sd e)
      ]
