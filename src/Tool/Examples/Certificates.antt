-- ===== src/Tool/Examples/Certificates.antt =====
-- The tool's certificate commands over the small SDK.
use cellframe_node.Prelude.{◌≡◌, true, some, List, [], ◌∷◌, String}
use cellframe_node.Tool.Calls.{removals}
use cellframe_node.Tool.Arguments.Seed.{seed_values}
use cellframe_node.Tool.Cert.{cert_create, cert_copy, cert_create_cert_pkey}
use cellframe_node.Tool.Cert.Create.{CertCreateOutcome, cert_create-CertCreateOutcome}
use cellframe_node.Tool.Cert.Copy.{
  CopyOutcome, cert_copy-CopyOutcome, SavesNoPrivateKey, cert_create_cert_pkey_public,
}
use cellframe_node.Tool.Examples.{small_sdk, small_dirs}

cert_create-CertCreateOutcome_example :
    CertCreateOutcome small_sdk small_dirs [] "node" 1 (some "abc") (
      cert_create small_sdk small_dirs
        ("t" ∷ "cert" ∷ "create" ∷ "node" ∷ "sig_dil" ∷ "-seed" ∷ "abc" ∷ [])
        [])
unfolding seed_values
cert_create-CertCreateOutcome_example =
    cert_create-CertCreateOutcome small_sdk small_dirs [] "t" "cert" "create" "node" "sig_dil"
      ("-seed" ∷ "abc" ∷ [])

abbrev rename_argv : List String
rename_argv = "t" ∷ "cert" ∷ "rename" ∷ "node" ∷ "other" ∷ []

cert_copy-CopyOutcome_example :
    CopyOutcome small_sdk small_dirs [] true "node" "other"
      (cert_copy small_sdk small_dirs true rename_argv [])
cert_copy-CopyOutcome_example =
    cert_copy-CopyOutcome small_sdk small_dirs [] true "t" "cert" "rename" "node" "other" []

cert_create_cert_pkey_public_example :
    let h' = (cert_create_cert_pkey small_sdk small_dirs rename_argv []).1 in
    SavesNoPrivateKey h' × (removals h' ≡ 0)
cert_create_cert_pkey_public_example =
    cert_create_cert_pkey_public small_sdk small_dirs rename_argv [] tt
