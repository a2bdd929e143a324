-- ===== src/Tool/Cert.antt =====
-- The handlers of `cellframe-node-tool cert …` (sources/main_node_tool.c).
pub mod Create
pub mod Copy
pub mod Files
use cellframe_node.Prelude.{
  ℕ, ◌+◌, ◌-◌, Bool, true, false, not, ◌&&◌, ◌||◌, Option, none, some, List, [], ◌∷◌, ◌==◌, length,
  if◌then◌else◌, is_some, ℤ, pos, negsuc, neg, is_zero, String,
}
use cellframe_node.Prelude.Text.{◌<>◌, len, snprintf, str_eq}
use cellframe_node.Prelude.Number.{atoi, strtoul}
use cellframe_node.Tool.Calls.{
  Sdk, Dirs, Tool, History, EncKey, Cert, helped, printed, cert_loaded, cert_registered, cert_freed,
  cert_dropped, cert_saved, cert_removed, file_written, meta_added, meta_scalar_added, ◌>>=◌, ◌>>◌,
  pure, quit, crash, ask, record_event, call, quit_if, help_quit_if, some_or_quit,
}
use cellframe_node.Tool.Arguments.{find_seed, seed_or_quit}
use cellframe_node.Tool.Wallet.{nonempty, first}

-- `ptr && size` of a key's data.
abbrev pub key_bytes : Option (List ℕ) → Option (List ℕ)
key_bytes none = none
key_bytes (some []) = none
key_bytes (some (b ∷ bs)) = some (b ∷ bs)

abbrev pub equals : ℤ → ℤ → Bool
equals (pos a) (pos b) = a == b
equals (negsuc a) (negsuc b) = a == b
equals _ _ = false

module _ (sdk : Sdk) (dirs : Dirs) where
  -- `l_cert_path`, in a buffer of `l_cert_path_length` bytes.
  unfoldable pub cert_path : String → String
  cert_path name =
      snprintf (len name + 8 + len dirs.ca_dir) (dirs.ca_dir <> ("/" <> (name <> ".dcert")))

  -- The memory certificate is registered, saved and freed, or freed at the first failure.
  unfoldable pub register_and_save : Cert → Tool (Unit {0})
  register_and_save cert = do
    added ← call (λ h. sdk.cert_add h cert) (cert_registered cert)
    (if is_zero added then pure tt else (record_event (cert_freed cert) >> quit (neg 500)))
    saved ← call (λ h. sdk.cert_save h cert dirs.ca_dir) (cert_saved cert dirs.ca_dir)
    (if is_zero saved then pure tt else (record_event (cert_freed cert) >> quit (neg 500)))
    record_event (cert_freed cert)

  -- The tests of the signature type, in the order of the source.
  unfoldable pub check_cert_type : ℕ → Tool (Unit {0})
  check_cert_type t = do
    quit_if (t == sdk.sig_type_null || t == sdk.sig_type_multi_chained) (neg 600)
    quit_if (t == sdk.sig_type_multi_chained) (neg 601)
    quit_if (sdk.sign_type_is_deprecated t) (neg 602)

  -- `s_cert_create`
  unfoldable pub cert_create : List String → Tool ℤ
  unfolding check_cert_type register_and_save
  cert_create (_ ∷ _ ∷ _ ∷ name ∷ type ∷ rest) = do
    exists ← ask (λ h. sdk.access h (cert_path name))
    quit_if exists (neg 700)
    let t = sdk.sign_type_from_str (some type)
    sd ← seed_or_quit (find_seed none rest) (neg 603)
    check_cert_type t
    let k = sdk.sign_type_to_key_type t
    help_quit_if (k == sdk.key_type_invalid) (neg 500)
    made ← ask (λ h. sdk.cert_generate h name k (nonempty sd))
    cert ← some_or_quit made (neg 500)
    register_and_save cert
    pure (pos 0)
  cert_create _ = do record_event helped; quit (neg 500)

  -- `dap_cert_add_file(name, s_system_ca_dir)`
  unfoldable pub load_cert : String → ℤ → Tool Cert
  load_cert name code = do
    loaded ← call (λ h. sdk.cert_add_file h name dirs.ca_dir) (λ _. cert_loaded name dirs.ca_dir)
    some_or_quit loaded code

  -- `s_cert_dump`
  unfoldable pub cert_dump : List String → Tool ℤ
  unfolding load_cert
  cert_dump (_ ∷ _ ∷ _ ∷ name ∷ _) = do
    cert ← load_cert name (neg 702)
    record_event (printed (sdk.cert_dump cert))
    record_event (cert_dropped name)
    pure (pos 0)
  cert_dump _ = pure (pos 0)

  -- `s_cert_create_pkey`. A file that cannot be opened is passed over.
  unfoldable pub cert_create_pkey : List String → Tool ℤ
  unfolding load_cert
  cert_create_pkey (_ ∷ _ ∷ _ ∷ name ∷ path ∷ _) = do
    cert ← load_cert name (neg 7021)
    quit_if (sdk.ser_pub_key_size cert.enc_key == 0) (neg 7023)
    pkey ← some_or_quit (sdk.pkey_from_key cert.enc_key) (neg 7022)
    exists ← ask (λ h. sdk.file_test h path)
    quit_if exists (neg 7023)
    opens ← ask (λ h. sdk.can_write h path)
    (if opens then record_event (file_written path pkey) else pure tt)
    record_event (cert_dropped name)
    pure (pos 0)
  cert_create_pkey _ = quit (neg 7023)

  -- The certificate under its new name, with the public key and perhaps the private one.
  abbrev pub copy_of : Cert → String → List ℕ → Option (List ℕ) → Cert
  copy_of cert new_name pub_key priv_key = record {
    cert_name = new_name;
    enc_key = record {
      key_type = cert.enc_key.key_type;
      pub_key = some pub_key;
      priv_key = priv_key;
    };
  }

  -- `key_data && size && a_pvt_key_copy`
  abbrev pub private_bytes : Bool → Cert → Option (List ℕ)
  private_bytes true cert = key_bytes cert.enc_key.priv_key
  private_bytes false cert = none

  -- Saving the copy, and removing the original behind it when the private key went along.
  unfoldable pub save_copy : Bool → String → Cert → Cert → Tool ℤ
  save_copy pvt_key_copy name cert copy = do
    saved ← call (λ h. sdk.cert_save h copy dirs.ca_dir) (cert_saved copy dirs.ca_dir)
    result ←
        (if is_zero saved && pvt_key_copy
          then call (λ h. sdk.cert_delete_file h name dirs.ca_dir) (cert_removed name dirs.ca_dir)
          else pure saved)
    record_event (cert_freed cert)
    record_event (cert_freed copy)
    pure result

  -- The copies of the keys in memory, then the files; an allocation that fails returns -1.
  unfoldable pub copy_keys : Bool → String → String → Cert → List ℕ → Tool ℤ
  unfolding save_copy
  copy_keys pvt_key_copy name new_name cert pub_key = do
    got_pub ← ask (λ h. sdk.can_allocate h (length pub_key))
    let save = save_copy pvt_key_copy name cert
    let with_private = λ (priv_key : List ℕ). do
      got_priv ← ask (λ h. sdk.can_allocate h (length priv_key))
      (if got_priv then save (copy_of cert new_name pub_key (some priv_key)) else pure (neg 1))
    (if got_pub
        then elim (private_bytes pvt_key_copy cert) [
          | none ↦ save (copy_of cert new_name pub_key none)
          | some priv_key ↦ with_private priv_key
        ]
        else pure (neg 1))

  -- `s_cert_copy`
  unfoldable pub cert_copy : Bool → List String → Tool ℤ
  unfolding load_cert copy_keys
  cert_copy pvt_key_copy (_ ∷ _ ∷ _ ∷ name ∷ new_name ∷ _) = do
    cert ← load_cert name (neg 7023)
    pub_key ← some_or_quit (key_bytes cert.enc_key.pub_key) (neg 7022)
    exists ← ask (λ h. sdk.file_test h (dirs.ca_dir <> ("/" <> (new_name <> ".dcert"))))
    quit_if exists (neg 7023)
    copy_keys pvt_key_copy name new_name cert pub_key
  cert_copy _ _ = quit (neg 7021)

  -- `s_cert_create_cert_pkey`, `s_cert_rename`
  unfoldable pub cert_create_cert_pkey : List String → Tool ℤ
  unfolding cert_copy
  cert_create_cert_pkey argv = cert_copy false argv

  unfoldable pub cert_rename : List String → Tool ℤ
  unfolding cert_copy
  cert_rename argv = cert_copy true argv

  -- The item that the parts of argv[4] describe. A part that is not there is a null pointer,
  -- which `atoi` and `strtoul` must not be given; `dap_cert_add_meta` is given it as it is.
  unfoldable pub add_meta : List String → Tool (Unit {0})
  add_meta (key ∷ type ∷ size ∷ value) =
      let t = atoi type in
      if equals t sdk.meta_string || equals t sdk.meta_sign || equals t sdk.meta_custom
      then record_event (meta_added key t (first value) (strtoul size))
      else elim (first value) [
        | none ↦ crash
        | some v ↦ record_event (meta_scalar_added key t (strtoul v) (strtoul size))
      ]
  add_meta _ = crash

  -- `s_cert_add_metadata`; the result of saving is not looked at.
  unfoldable pub cert_add_metadata : List String → Tool ℤ
  unfolding load_cert add_meta
  cert_add_metadata (_ ∷ _ ∷ _ ∷ name ∷ item ∷ _) = do
    cert ← load_cert name (neg 800)
    add_meta (sdk.strsplit item ":" 4)
    saved ← call (λ h. sdk.cert_save h cert dirs.ca_dir) (cert_saved cert dirs.ca_dir)
    record_event (cert_dropped name)
    pure (pos 0)
  cert_add_metadata _ = quit (neg 800)

  -- `s_cert_sign`
  unfoldable pub cert_sign : List String → Tool ℤ
  cert_sign _ = pure (neg 1)

  unfoldable pub find_cert : String → Tool Cert
  find_cert name = do found ← ask (λ h. sdk.cert_find h name); some_or_quit found (neg 134)

  unfoldable pub cert_hash : String → Cert → Tool String
  cert_hash name cert = do let hash = sdk.cert_pkey_hash cert; some_or_quit hash (neg 135)

  -- `s_cert_pkey_show`
  unfoldable pub cert_pkey_show : List String → Tool ℤ
  unfolding find_cert cert_hash
  cert_pkey_show (_ ∷ _ ∷ _ ∷ _ ∷ name ∷ []) = do
    cert ← find_cert name
    hash ← cert_hash name cert
    record_event (printed (hash <> "\n"))
    pure (pos 0)
  cert_pkey_show _ = quit (neg 800)

  -- `s_cert_pkey_show_full`
  unfoldable pub cert_pkey_show_full : List String → Tool ℤ
  unfolding find_cert cert_hash
  cert_pkey_show_full (_ ∷ _ ∷ _ ∷ _ ∷ name ∷ []) = do
    cert ← find_cert name
    hash ← cert_hash name cert
    record_event (printed ("hash: " <> (hash <> ("\npkey: " <> (sdk.cert_pkey_str cert <> "\n")))))
    pure (pos 0)
  cert_pkey_show_full _ = quit (neg 800)

  -- `s_cert_get_addr`
  unfoldable pub cert_get_addr : List String → Tool ℤ
  unfolding find_cert
  cert_get_addr (_ ∷ _ ∷ _ ∷ _ ∷ name ∷ []) = do
    cert ← find_cert name
    record_event (printed (sdk.node_addr cert <> "\n"))
    pure (pos 0)
  cert_get_addr _ = quit (neg 900)
