-- ===== src/Tool/Cert/Files.antt =====
-- `cert create_pkey` and `cert add_metadata`: what their results say of the files.
use cellframe_node.Prelude.{
  ◌<◌, ◌≡◌, refl, ◌≢◌, true, false, some, List, ◌∷◌, arith, length, ℤ, pos, String,
}
use cellframe_node.Process.{Outcome, ret, exit, fault, exit_status}
use cellframe_node.Tool.Calls.{Sdk, Dirs, History, Cert, cert_loaded, cert_dropped, file_written}
use cellframe_node.Tool.Cert.{cert_create_pkey, cert_add_metadata}

module _ (sdk : Sdk) (dirs : Dirs) (h : History) where
  abbrev pub loaded : String → History
  loaded name = cert_loaded name dirs.ca_dir ∷ h

  -- What a call of `s_cert_create_pkey` may come to.
  abbrev pub PkeyOutcome : String → String → Outcome ℤ × History → Type 0
  PkeyOutcome name path (ret r, cert_dropped n ∷ file_written p bytes ∷ h') =
      (r ≡ pos 0)
      × (n ≡ name)
      × (p ≡ path)
      × (h' ≡ loaded name)
      × (sdk.file_test (loaded name) path ≡ false)
      × (sdk.can_write (loaded name) path ≡ true)
  PkeyOutcome name path (ret r, cert_dropped n ∷ h') =
      (r ≡ pos 0)
      × (n ≡ name)
      × (h' ≡ loaded name)
      × (sdk.file_test (loaded name) path ≡ false)
      × (sdk.can_write (loaded name) path ≡ false)
  PkeyOutcome name path (ret r, h') = ⊥
  PkeyOutcome name path (exit c, h') = (h' ≡ loaded name) × (exit_status c ≢ 0)
  PkeyOutcome name path (fault, h') = ⊥

  -- `cert create_pkey` with five arguments or more exits with a status other than 0 and has
  -- written nothing, or returns 0: then there was no file at the path, and the file is written
  -- if it can be opened; if it cannot, the result is 0 as well.
  pub cert_create_pkey-PkeyOutcome :
      (a b c name path : String) (rest : List String)
      → PkeyOutcome name path (cert_create_pkey sdk dirs (a ∷ b ∷ c ∷ name ∷ path ∷ rest) h)
  unfolding cert_create_pkey exit_status
  cert_create_pkey-PkeyOutcome a b c name path rest = ground arith

  -- Whether the certificate can be saved makes no difference to the result of `cert
  -- add_metadata`: with any other answers of the saving it is the same.
  pub cert_add_metadata_ignores_save :
      (answers : History → Cert → String → ℤ) (argv : List String)
      → (cert_add_metadata sdk dirs argv h).0
        ≡ (cert_add_metadata (record sdk { cert_save = answers }) dirs argv h).0
  unfolding cert_add_metadata
  cert_add_metadata_ignores_save answers (_ ∷ _ ∷ _ ∷ name ∷ item ∷ _) = ground arith
  cert_add_metadata_ignores_save answers _ = refl

  -- An item with fewer than three parts makes `cert add_metadata` read through a null pointer,
  -- if the certificate can be read.
  pub cert_add_metadata_few_parts :
      (a b c name item : String) (rest : List String) {cert : Cert}
      → sdk.cert_add_file h name dirs.ca_dir ≡ some cert
      → length (sdk.strsplit item ":" 4) < 3
      → cert_add_metadata sdk dirs (a ∷ b ∷ c ∷ name ∷ item ∷ rest) h ≡ (fault, loaded name)
  unfolding cert_add_metadata
  cert_add_metadata_few_parts a b c name item rest read few = ground arith
