-- ===== src/Tool/Cert/Copy.antt =====
-- `cert rename` and `cert create_cert_pkey`: which keys the copy has, and when the original goes.
use cellframe_node.Prelude.{
  ℕ, ◌≡◌, refl, ◌≢◌, ◌⊎◌, inl, inr, Bool, true, false, ◌&&◌, Option, none, some, List, [], ◌∷◌,
  arith, length, Option-cases, Bool-cases, subst, sym, ℤ, neg, is_zero, String,
}
use cellframe_node.Prelude.Text.{◌<>◌}
use cellframe_node.Process.{Outcome, ret, exit, fault, exit_status}
use cellframe_node.Tool.Calls.{
  Sdk, Dirs, History, Cert, cert_loaded, cert_saved, cert_removed, cert_freed, removals,
}
use cellframe_node.Tool.Cert.{
  key_bytes, copy_of, private_bytes, copy_keys, save_copy, load_cert, cert_copy,
  cert_create_cert_pkey,
}

module _ (sdk : Sdk) (dirs : Dirs) (h : History) where
  abbrev pub new_path : String → String
  new_path new_name = dirs.ca_dir <> ("/" <> (new_name <> ".dcert"))

  -- The certificate as it is read from the folder.
  abbrev loaded : String → History
  loaded name = cert_loaded name dirs.ca_dir ∷ h

  -- `copy` is `cert` under the new name: the same type and public key, and the private key or
  -- none; and the new name had no file.
  pub record IsCopy (pvt_key_copy : Bool) (name new_name : String) (cert copy : Cert) : Type 0 where
    pub read : sdk.cert_add_file h name dirs.ca_dir ≡ some cert
    pub named : copy.cert_name ≡ new_name
    pub same_type : copy.enc_key.key_type ≡ cert.enc_key.key_type
    pub same_public : copy.enc_key.pub_key ≡ cert.enc_key.pub_key
    pub same_private : copy.enc_key.priv_key ≡ private_bytes sdk dirs pvt_key_copy cert
    pub free : sdk.file_test (loaded name) (new_path new_name) ≡ false

  -- What a call of `s_cert_copy` may come to.
  abbrev pub CopyOutcome : Bool → String → String → Outcome ℤ × History → Type 0
  CopyOutcome pvt name new_name
        (
          ret r,
          cert_freed copy ∷ cert_freed cert ∷ cert_removed n d x ∷ cert_saved saved d' s ∷ h',
        ) =
      (pvt ≡ true)
      × (is_zero s ≡ true)
      × (r ≡ x)
      × (n ≡ name)
      × (d ≡ dirs.ca_dir)
      × (d' ≡ dirs.ca_dir)
      × (saved ≡ copy)
      × (h' ≡ loaded name)
      × IsCopy pvt name new_name cert copy
  CopyOutcome pvt name new_name
        (ret r, cert_freed copy ∷ cert_freed cert ∷ cert_saved saved d' s ∷ h') =
      (is_zero s && pvt ≡ false)
      × (r ≡ s)
      × (d' ≡ dirs.ca_dir)
      × (saved ≡ copy)
      × (h' ≡ loaded name)
      × IsCopy pvt name new_name cert copy
  CopyOutcome pvt name new_name (ret r, h') = (r ≡ neg 1) × (h' ≡ loaded name)
  CopyOutcome pvt name new_name (exit c, h') = ((h' ≡ h) ⊎ (h' ≡ loaded name)) × (exit_status c ≢ 0)
  CopyOutcome pvt name new_name (fault, h') = ⊥

  key_bytes-eq-some :
      (k : Option (List ℕ)) (bytes : List ℕ) → key_bytes k ≡ some bytes → k ≡ some bytes
  key_bytes-eq-some none bytes e = cc
  key_bytes-eq-some (some []) bytes e = cc
  key_bytes-eq-some (some (b ∷ bs)) bytes e = e

  save_copy_outcome :
      (pvt : Bool) (name new_name : String) (cert copy : Cert)
      → IsCopy pvt name new_name cert copy
      → CopyOutcome pvt name new_name (save_copy sdk dirs pvt name cert copy (loaded name))
  unfolding save_copy
  save_copy_outcome true name new_name cert copy is_copy =
      elim (Bool-cases (is_zero (sdk.cert_save (loaded name) copy dirs.ca_dir))) [
        | inl e ↦ rw e (refl, e, refl, refl, refl, refl, refl, refl, is_copy)
        | inr e ↦ rw e (rw e, refl, refl, refl, refl, is_copy)
      ]
  save_copy_outcome false name new_name cert copy is_copy =
      elim (Bool-cases (is_zero (sdk.cert_save (loaded name) copy dirs.ca_dir))) [
        | inl e ↦ rw e (rw e, refl, refl, refl, refl, is_copy)
        | inr e ↦ rw e (rw e, refl, refl, refl, refl, is_copy)
      ]

  copy_keys_outcome :
      (pvt : Bool) (name new_name : String) (cert : Cert) (pub_key : List ℕ)
      → sdk.cert_add_file h name dirs.ca_dir ≡ some cert
      → cert.enc_key.pub_key ≡ some pub_key
      → sdk.file_test (loaded name) (new_path new_name) ≡ false
      → CopyOutcome pvt name new_name
          (copy_keys sdk dirs pvt name new_name cert pub_key (loaded name))
  unfolding copy_keys
  copy_keys_outcome pvt name new_name cert pub_key read pub_eq free =
      elim (Option-cases (private_bytes sdk dirs pvt cert)) [
        | inl e ↦ elim (Bool-cases (sdk.can_allocate (loaded name) (length pub_key))) [
          | inl got ↦ via (save none) (rw (got, e)) (saved none (sym e))
          | inr full ↦ via failed (rw full) (refl, refl)
        ]
        | inr (priv_key, e) ↦ elim (Bool-cases (sdk.can_allocate (loaded name) (length pub_key))) [
          | inl got ↦ elim (Bool-cases (sdk.can_allocate (loaded name) (length priv_key))) [
            | inl more ↦
                via (save (some priv_key)) (rw (got, e, more)) (saved (some priv_key) (sym e))
            | inr full ↦ via failed (rw (got, e, full)) (refl, refl)
          ]
          | inr full ↦ via failed (rw full) (refl, refl)
        ]
      ]
    where
      save : Option (List ℕ) → Outcome ℤ × History
      save priv_key =
          save_copy sdk dirs pvt name cert (copy_of sdk dirs cert new_name pub_key priv_key)
            (loaded name)

      failed : Outcome ℤ × History
      failed = (ret (neg 1), loaded name)

      via :
          (out : Outcome ℤ × History)
          → copy_keys sdk dirs pvt name new_name cert pub_key (loaded name) ≡ out
          → CopyOutcome pvt name new_name out
          → CopyOutcome pvt name new_name
              (copy_keys sdk dirs pvt name new_name cert pub_key (loaded name))
      via out p x = subst (CopyOutcome pvt name new_name) (sym p) x

      saved :
          (priv_key : Option (List ℕ))
          → priv_key ≡ private_bytes sdk dirs pvt cert
          → CopyOutcome pvt name new_name (save priv_key)
      saved priv_key q = save_copy_outcome pvt name new_name cert _ (record {
        read = read;
        named = refl;
        same_type = refl;
        same_public = sym pub_eq;
        same_private = q;
        free = free;
      })

  -- With five arguments or more, a call of `s_cert_copy` reads the certificate and ends in one of
  -- these ways. It saves a copy under the new name, which had no file: with the same type and
  -- public key, with the private key if that is asked for and there is one, and with none
  -- otherwise. If that succeeds and the private key was asked for, and only then, the original is
  -- removed, and the result is that of the removal; otherwise it is that of the saving. Or it
  -- returns -1 for lack of memory, or exits with a status other than 0, with no file written or
  -- removed.
  pub cert_copy-CopyOutcome :
      (pvt_key_copy : Bool) (a b c name new_name : String) (rest : List String)
      → CopyOutcome pvt_key_copy name new_name
          (cert_copy sdk dirs pvt_key_copy (a ∷ b ∷ c ∷ name ∷ new_name ∷ rest) h)
  unfolding cert_copy load_cert exit_status
  cert_copy-CopyOutcome pvt_key_copy a b c name new_name rest =
      elim (Option-cases (sdk.cert_add_file h name dirs.ca_dir)) [
        | inl e ↦ via (exit (neg 7023), loaded name) (ground arith) (inr refl, omega arith)
        | inr (cert, read) ↦ elim (Option-cases (key_bytes cert.enc_key.pub_key)) [
          | inl e ↦ via (exit (neg 7022), loaded name) (ground arith) (inr refl, omega arith)
          | inr (pub_key, e) ↦ elim (Bool-cases (sdk.file_test (loaded name) (new_path new_name))) [
            | inl taken ↦ via (exit (neg 7023), loaded name) (ground arith) (inr refl, omega arith)
            | inr free ↦
                via (copy_keys sdk dirs pvt_key_copy name new_name cert pub_key (loaded name))
                  (ground arith)
                  (copy_keys_outcome pvt_key_copy name new_name cert pub_key read
                    (key_bytes-eq-some _ pub_key e) free)
          ]
        ]
      ]
    where
      via :
          (out : Outcome ℤ × History)
          → cert_copy sdk dirs pvt_key_copy (a ∷ b ∷ c ∷ name ∷ new_name ∷ rest) h ≡ out
          → CopyOutcome pvt_key_copy name new_name out
          → CopyOutcome pvt_key_copy name new_name
              (cert_copy sdk dirs pvt_key_copy (a ∷ b ∷ c ∷ name ∷ new_name ∷ rest) h)
      via out p x = subst (CopyOutcome pvt_key_copy name new_name) (sym p) x

-- No certificate with a private key is saved.
abbrev pub SavesNoPrivateKey : History → Type 0
SavesNoPrivateKey [] = Unit
SavesNoPrivateKey (cert_saved cert _ _ ∷ h) = (cert.enc_key.priv_key ≡ none) × SavesNoPrivateKey h
SavesNoPrivateKey (_ ∷ h) = SavesNoPrivateKey h

-- `cert create_cert_pkey` saves no private key and removes no file, whatever its arguments and
-- whatever the calls answer.
pub cert_create_cert_pkey_public :
    (sdk : Sdk) (dirs : Dirs) (argv : List String) (h : History)
    → SavesNoPrivateKey h
    → let h' = (cert_create_cert_pkey sdk dirs argv h).1 in
      SavesNoPrivateKey h' × (removals h' ≡ removals h)
unfolding cert_create_cert_pkey
cert_create_cert_pkey_public sdk dirs (_ ∷ _ ∷ _ ∷ name ∷ new_name ∷ _) h p = ground arith
cert_create_cert_pkey_public sdk dirs _ h p = ground arith
