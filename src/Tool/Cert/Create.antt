-- ===== src/Tool/Cert/Create.antt =====
-- What `cert create` does on every branch, and the buffer for the certificate's path.
use cellframe_node.Prelude.{
  ℕ, ◌+◌, ◌-◌, ◌≡◌, ◌≢◌, refl, true, false, Option, none, some, List, ◌∷◌, arith, ℤ, pos, neg,
  is_zero, String, inl, inr, subst,
}
use cellframe_node.Prelude.Text.{eq_iff, ◌<>◌, len, len-append, slice_all}
use cellframe_node.Process.{Outcome, ret, exit, fault, exit_status}
use cellframe_node.Tool.Calls.{
  Cert, Sdk, Dirs, History, cert_saved, cert_registered, cert_freed, saves,
}
use cellframe_node.Tool.Arguments.{SeedArg-cases, seed, find_seed, type_of, Accepted}
use cellframe_node.Tool.Arguments.Seed.{Used, given_seed, find_seed-given_seed}
use cellframe_node.Tool.Wallet.{nonempty}
use cellframe_node.Tool.Cert.{cert_path, cert_create}

Used-nonempty : (sd : Option String) → Used sd (nonempty sd)
Used-nonempty none = inl refl
Used-nonempty (some s) = ground (arith, eq_iff s "")

module _ (sdk : Sdk) (dirs : Dirs) where
  abbrev pub whole_path : String → String
  whole_path name = dirs.ca_dir <> ("/" <> (name <> ".dcert"))

  -- The buffer holds the path of every certificate name whole: nothing is cut off.
  pub cert_path_whole : (name : String) → cert_path sdk dirs name ≡ whole_path name
  unfolding cert_path
  cert_path_whole name =
      let fits : len name + 8 + len dirs.ca_dir - 1 ≡ len (whole_path name) =
        rw (len-append, len-append, len-append) (omega arith) in
      rw fits (slice_all (whole_path name))

  module _ (h : History) where
    -- The certificate that the arguments ask for: of that name, with a key of the type for the
    -- signature type, from the seed that they give unless it is empty.
    pub record IsAsked (name : String) (t : ℕ) (given : Option String) (c : Cert) : Type 0 where
      pub from : Option String
      pub used : Used given from
      pub generated : sdk.cert_generate h name (sdk.sign_type_to_key_type t) from ≡ some c

    -- The same of what the SDK has answered.
    abbrev AreAsked : String → ℕ → Option String → Option Cert → Type 0
    AreAsked name t given none = Unit
    AreAsked name t given (some c) = IsAsked name t given c

    asked_of :
        (name : String) (t : ℕ) (sd : Option String) (made : Option Cert)
        → sdk.cert_generate h name (sdk.sign_type_to_key_type t) (nonempty sd) ≡ made
        → AreAsked name t sd made
    asked_of name t sd none e = tt
    asked_of name t sd (some c) e = record {
      from = nonempty sd;
      used = Used-nonempty sd;
      generated = e;
    }

    -- What a call of the handler may come to.
    abbrev pub CertCreateOutcome : String → ℕ → Option String → Outcome ℤ × History → Type 0
    CertCreateOutcome name t given
          (ret r, cert_freed c ∷ cert_saved c' d s ∷ cert_registered c'' a ∷ h') =
        (r ≡ pos 0)
        × (h' ≡ h)
        × (c' ≡ c)
        × (c'' ≡ c)
        × IsAsked name t given c
        × (d ≡ dirs.ca_dir)
        × (is_zero s ≡ true)
        × (is_zero a ≡ true)
        × Accepted sdk t
        × (t ≢ sdk.sig_type_multi_chained)
        × (sdk.access h (whole_path name) ≡ false)
    CertCreateOutcome name t given (ret r, _) = ⊥
    CertCreateOutcome name t given (exit c, h') =
        (exit_status c ≢ 0) × (c ≢ neg 601) × (saves h' ≡ saves h)
    CertCreateOutcome name t given (fault, h') = ⊥

    -- The outcome where the loop for -seed ends with these values.
    create_seeded :
        (a b c name type : String) (rest : List String) (sd : Option String)
        → find_seed none rest ≡ seed sd
        → CertCreateOutcome name
            (type_of sdk type)
            sd
            (cert_create sdk dirs (a ∷ b ∷ c ∷ name ∷ type ∷ rest) h)
    unfolding cert_create exit_status
    create_seeded a b c name type rest sd e =
        ground (arith, cert_path_whole name, asked_of name (type_of sdk type) sd _ refl)

    -- `cert create` with five arguments or more either returns 0, behind registering, saving and
    -- freeing one certificate, each successfully: the one that the SDK generates under that name,
    -- with the key type of the signature type, from the last value of a -seed behind argv[4], if
    -- there is one and it is not empty. There was no file of that name then, and the signature type
    -- is known, current and for one key. Or it exits with a status other than 0, never with the code
    -- -601, and no certificate file has been written.
    pub cert_create-CertCreateOutcome :
        (a b c name type : String) (rest : List String)
        → CertCreateOutcome name
            (type_of sdk type)
            (given_seed rest)
            (cert_create sdk dirs (a ∷ b ∷ c ∷ name ∷ type ∷ rest) h)
    unfolding cert_create exit_status
    cert_create-CertCreateOutcome a b c name type rest =
        elim (SeedArg-cases (find_seed none rest)) [
          | inl e ↦ ground (arith, cert_path_whole name)
          | inr (sd, e) ↦
              subst
                (λ given.
                  CertCreateOutcome name (type_of sdk type) given
                    (cert_create sdk dirs (a ∷ b ∷ c ∷ name ∷ type ∷ rest) h))
                (find_seed-given_seed sd rest e) (create_seeded a b c name type rest sd e)
        ]
