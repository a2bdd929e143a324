-- ===== src/Tool/Examples.antt =====
-- A small SDK, over which the tool's handlers run.
mod Wallets
mod Certificates
mod Commands
use cellframe_node.Prelude.{
  ℕ, ◌≡◌, refl, ◌↔◌, true, false, Option, none, some, List, [], ◌∷◌, ◌++◌, arith, ◌==◌,
  if◌then◌else◌, pos, neg, String,
}
use cellframe_node.Prelude.Text.{str_eq, ◌<>◌}
use cellframe_node.Process.{ret, exit, fault}
use cellframe_node.Tool.Calls.{Sdk, Dirs, Cert, helped, removals}
use cellframe_node.Tool.Arguments.{
  seed, find_seed, types, parse_types, parse_types_complete, sig_words, Accepted,
}
use cellframe_node.Tool.Arguments.Seed.{find_seed_given}
use cellframe_node.Tool.Wallet.{wallet_create, wallet_create_wp}
use cellframe_node.Tool.Wallet.Create.{
  CreateOutcome, UnderPassword, MayCreate, wallet_create-CreateOutcome,
  wallet_create_wp-CreateOutcome,
}
use cellframe_node.Tool.Wallet.SeveralKeys.{
  wallet_create_skips_word, wallet_create_seed_read_as_type,
}
use cellframe_node.Tool.Cert.{
  cert_path, cert_create, cert_copy, cert_create_cert_pkey, cert_create_pkey, cert_add_metadata,
}
use cellframe_node.Tool.Cert.Create.{
  cert_path_whole, CertCreateOutcome, cert_create-CertCreateOutcome,
}
use cellframe_node.Tool.Cert.Copy.{
  CopyOutcome, cert_copy-CopyOutcome, SavesNoPrivateKey, cert_create_cert_pkey_public,
}
use cellframe_node.Tool.Cert.Files.{
  PkeyOutcome, cert_create_pkey-PkeyOutcome, cert_add_metadata_ignores_save,
  cert_add_metadata_few_parts, loaded,
}
use cellframe_node.Tool.Init.{Setup, init, init_ca_slash}
use cellframe_node.Tool.Dispatch.{Command, find_command, run_command, tool_main}
use cellframe_node.Tool.Dispatch.Table.{command_words, Selects, Selects-iff, tool_main_missing}
use cellframe_node.Tool.Dispatch.Folder.{RunsNothing, tool_main_folder-RunsNothing}

abbrev type_number : Option String → ℕ
type_number none = 0
type_number (some s) =
    if str_eq s "sig_dil"
    then 1
    else if str_eq s "sig_falcon"
    then 2
    else if str_eq s "sig_multi_chained"
    then 9
    else if str_eq s "sig_picnic"
    then 7
    else 0

abbrev pub some_cert : Cert
some_cert = record {
  cert_name = "node";
  enc_key = record { key_type = 1; pub_key = some (5 ∷ 6 ∷ []); priv_key = some (7 ∷ []) };
}

-- Every call succeeds, and no file is there.
abbrev pub small_sdk : Sdk
small_sdk = record {
  sig_type_null = 0;
  sig_type_multi_chained = 9;
  key_type_invalid = 0;
  max_enc_keys = 2;
  meta_string = pos 0;
  meta_sign = pos 4;
  meta_custom = pos 5;
  sign_type_from_str = type_number;
  sign_type_is_deprecated = λ t. t == 7;
  sign_type_to_key_type = λ t. t;
  isstralnum = λ _. true;
  check_valid_password = λ _. true;
  strsplit = λ s _ _. s ∷ [];
  wallet_path = "/wallets";
  file_test = λ _ _. false;
  access = λ _ _. false;
  can_read = λ _ _. true;
  can_write = λ _ _. true;
  can_allocate = λ _ _. true;
  create_wallet = λ _ _. true;
  wallet_open = λ _ _ _. some 1;
  wallet_open_file = λ _ _ _. some 1;
  wallet_certs_number = λ _. 1;
  wallet_pkey_hash = λ _. some "0x1";
  wallet_pkey_str = λ _. "01";
  cert_generate = λ _ _ _ _. some some_cert;
  cert_add = λ _ _. pos 0;
  cert_add_file = λ _ _ _. some some_cert;
  cert_find = λ _ _. some some_cert;
  cert_save = λ _ _ _. pos 0;
  cert_delete_file = λ _ _ _. pos 0;
  cert_dump = λ _. "dump";
  cert_pkey_hash = λ _. some "0x1";
  cert_pkey_str = λ _. "01";
  ser_pub_key_size = λ _. 2;
  pkey_from_key = λ _. some (1 ∷ 2 ∷ []);
  node_addr = λ _. "0::1";
}

abbrev pub small_dirs : Dirs
small_dirs = record { ca_dir = "/ca"; wallet_dir = "/wallets" }
