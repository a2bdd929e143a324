-- ===== src/Tool/Calls.antt =====
-- What the tool's handlers take from the Cellframe SDK (a git submodule) and from the system:
-- calls whose answer may depend on every call before. A handler is a function of that history.
use cellframe_node.Prelude.{
  ℕ, suc, Bool, true, false, Option, none, some, List, [], ◌∷◌, if◌then◌else◌, ℤ, is_zero, String,
}
use cellframe_node.Process.{Outcome, ret, exit, fault}
use cellframe_node.Tool.Help.{help_text}

-- What the tool reads and writes of a `dap_enc_key_t`; a size field is the length of its data.
pub record EncKey : Type 0 where
  pub key_type : ℕ
  pub pub_key : Option (List ℕ)
  pub priv_key : Option (List ℕ)

-- The same of a `dap_cert_t`.
pub record Cert : Type 0 where
  pub cert_name : String
  pub enc_key : EncKey

-- The three functions that create a wallet: one key, one key from a seed, several keys. Behind
-- the name and the folder stand the signature types, the seed and the password.
pub data WalletRequest : Type 0 where
  plain : String → String → ℕ → Option String → WalletRequest
  seeded : String → String → ℕ → String → Option String → WalletRequest
  multi : String → String → List ℕ → Option String → Option String → WalletRequest

-- The calls that leave a trace, each with the answer that it got.
pub data Event : Type 0 where
  -- the lines of `s_help()`
  usage_shown : List String → Event
  -- a result on standard output
  printed : String → Event
  wallet_created : WalletRequest → Bool → Event
  wallet_opened : String → Event
  -- `dap_cert_add_file`, `dap_cert_add`
  cert_loaded : String → String → Event
  cert_registered : Cert → ℤ → Event
  -- `dap_cert_delete`, `dap_cert_delete_by_name`: memory only
  cert_freed : Cert → Event
  cert_dropped : String → Event
  -- `dap_cert_save_to_folder`, `dap_cert_delete_file`
  cert_saved : Cert → String → ℤ → Event
  cert_removed : String → String → ℤ → Event
  -- `fopen(path, "wb")` with the `fwrite` behind it
  file_written : String → List ℕ → Event
  -- `dap_cert_add_meta` (name, type, value, length), `dap_cert_add_meta_scalar`
  meta_added : String → ℤ → Option String → ℕ → Event
  meta_scalar_added : String → ℤ → ℕ → ℕ → Event

abbrev pub helped : Event
helped = usage_shown help_text

-- Latest first.
abbrev pub History : Type 0
History = List Event

-- The functions and constants of the SDK, and what the system answers. A null pointer is `none`.
pub record Sdk : Type 0 where
  pub sig_type_null : ℕ
  pub sig_type_multi_chained : ℕ
  pub key_type_invalid : ℕ
  -- `MAX_ENC_KEYS_IN_MULTYSIGN`
  pub max_enc_keys : ℕ
  pub meta_string : ℤ
  pub meta_sign : ℤ
  pub meta_custom : ℤ
  pub sign_type_from_str : Option String → ℕ
  pub sign_type_is_deprecated : ℕ → Bool
  pub sign_type_to_key_type : ℕ → ℕ
  pub isstralnum : String → Bool
  pub check_valid_password : String → Bool
  -- `dap_strsplit`, without the null pointer at the end
  pub strsplit : String → String → ℕ → List String
  -- `dap_chain_wallet_get_path(g_config)`
  pub wallet_path : String
  -- `dap_file_test`, `access(path, F_OK) != -1`
  pub file_test : History → String → Bool
  pub access : History → String → Bool
  -- whether `fopen(path, "rb")`, `fopen(path, "wb")` opens the file
  pub can_read : History → String → Bool
  pub can_write : History → String → Bool
  -- whether `DAP_DUP_SIZE` gets this many bytes
  pub can_allocate : History → ℕ → Bool
  pub create_wallet : History → WalletRequest → Bool
  pub wallet_open : History → String → String → Option ℕ
  pub wallet_open_file : History → String → String → Option ℕ
  pub wallet_certs_number : ℕ → ℕ
  pub wallet_pkey_hash : ℕ → Option String
  pub wallet_pkey_str : ℕ → String
  pub cert_generate : History → String → ℕ → Option String → Option Cert
  pub cert_add : History → Cert → ℤ
  pub cert_add_file : History → String → String → Option Cert
  pub cert_find : History → String → Option Cert
  pub cert_save : History → Cert → String → ℤ
  pub cert_delete_file : History → String → String → ℤ
  pub cert_dump : Cert → String
  pub cert_pkey_hash : Cert → Option String
  pub cert_pkey_str : Cert → String
  pub ser_pub_key_size : EncKey → ℕ
  -- the bytes of the `dap_pkey_t`, its header included
  pub pkey_from_key : EncKey → Option (List ℕ)
  pub node_addr : Cert → String

-- `s_system_ca_dir` and `s_system_wallet_dir`, which `s_init` fills.
pub record Dirs : Type 0 where
  pub ca_dir : String
  pub wallet_dir : String

abbrev pub Tool : Type 0 → Type 0
Tool A = History → Outcome A × History

infixl 5 ◌>>=◌ ◌>>◌
abbrev pub ◌>>=◌ : {A B : Type 0} → Tool A → (A → Tool B) → Tool B
◌>>=◌ m f h =
    let (o, h') = m h in elim o [ ret a ↦ f a h' | exit c ↦ (exit c, h') | fault ↦ (fault, h') ]

abbrev pub ◌>>◌ : {A B : Type 0} → Tool A → Tool B → Tool B
m >> k = m >>= λ _. k

abbrev pub pure : {A : Type 0} → A → Tool A
pure a h = (ret a, h)

-- `exit(code)`
abbrev pub quit : {A : Type 0} → ℤ → Tool A
quit code h = (exit code, h)

abbrev pub crash : {A : Type 0} → Tool A
crash h = (fault, h)

-- A call whose answer depends on the history and that leaves no trace.
abbrev pub ask : {A : Type 0} → (History → A) → Tool A
ask f h = (ret (f h), h)

abbrev pub record_event : Event → Tool (Unit {0})
record_event e h = (ret tt, e ∷ h)

-- A call that answers and leaves a trace with the answer.
abbrev pub call : {A : Type 0} → (History → A) → (A → Event) → Tool A
call f e h = let a = f h in (ret a, e a ∷ h)

abbrev pub quit_if : Bool → ℤ → Tool (Unit {0})
quit_if true code = quit code
quit_if false code = pure tt

-- `s_help(); exit(code);` under a test.
abbrev pub help_quit_if : Bool → ℤ → Tool (Unit {0})
help_quit_if true code = record_event helped >> quit code
help_quit_if false code = pure tt

abbrev pub some_or_quit : {A : Type 0} → Option A → ℤ → Tool A
some_or_quit none code = quit code
some_or_quit (some a) code = pure a

-- The certificate files that were written, and those that were removed.
abbrev pub saves : History → ℕ
saves [] = 0
saves (cert_saved _ _ s ∷ h) = let rest = saves h in if is_zero s then suc rest else rest
saves (_ ∷ h) = saves h

abbrev pub removals : History → ℕ
removals [] = 0
removals (cert_removed _ _ s ∷ h) = suc (removals h)
removals (_ ∷ h) = removals h
