-- ===== src/Node/Boot/Checks.antt =====
-- What must start for `main` of sources/cellframe-node.c to go on: each call whose failure it
-- returns for, with the value that it returns, in the order of the source.
use cellframe_node.Prelude.{
  ◌≡◌, refl, ap, Bool, true, false, ◌&&◌, List, [], ◌∷◌, ◌++◌, append-nil, ℤ, neg, String, Option,
}
use cellframe_node.Node.Boot.Plan.{
  Node, Module, Step, fatal, warn, effect, plan, when, base_plan, stream_plan, chain_plan,
  service_plan, plugin_plan, load_plan, server_plan, last_plan, listen_plan,
}

abbrev pub only : Bool → List (Module × ℤ) → List (Module × ℤ)
only true cs = cs
only false cs = []

module _ (env : Node) where
  -- The server, and what needs it, with server.enabled only; the two of the VPN with their own
  -- settings.
  abbrev pub checks : List (Module × ℤ)
  checks =
      (Module.enc, neg 56) ∷ only (env.server_enabled) ((Module.server, neg 4) ∷ [])
      ++ (Module.http, neg 5)
        ∷ (Module.http_folder, neg 55)
        ∷ (Module.http_simple, neg 9)
        ∷ (Module.enc_http, neg 81)
        ∷ (Module.stream, neg 82)
        ∷ (Module.stream_ctl, neg 83)
        ∷ (Module.global_db, neg 58)
        ∷ (Module.datum_mempool, neg 59)
        ∷ (Module.chain, neg 60)
        ∷ (Module.cs_dag, neg 62)
        ∷ (Module.cs_dag_poa, neg 63)
        ∷ (Module.cs_blocks, neg 62)
        ∷ (Module.cs_esbocs, neg 69)
        ∷ (Module.nonconsensus, neg 71)
        ∷ (Module.net, neg 65)
        ∷ (Module.policy, neg 66)
        ∷ (Module.wallet, neg 61)
        ∷ (Module.net_srv, neg 66)
        ∷ (Module.sig_unix_handler, neg 12)
        ∷ (Module.node_cli, neg 11)
        ∷ (Module.wallet_cache, neg 61)
        ∷ (Module.wallet_shared, neg 61)
        ∷ (Module.srv_order, neg 67)
        ∷ (Module.node_list_clean, neg 131)
        ∷ (Module.global_db_clean, neg 133)
        ∷ only (env.server_enabled && env.server_new) ((Module.json_rpc, neg 12) ∷ [])
      ++ only (env.vpn_enabled) ((Module.srv_vpn, neg 70) ∷ [])
      ++ (Module.vpn_client, neg 72) ∷ only (env.geoip_enabled) ((Module.geoip, neg 73) ∷ [])

-- The steps of a plan that may end the start.
abbrev pub endings : List Step → List (Module × ℤ)
endings [] = []
endings (fatal m c ∷ steps) = (m, c) ∷ endings steps
endings (warn m ∷ steps) = endings steps
endings (effect e ∷ steps) = endings steps

pub endings-append : (xs ys : List Step) → endings (xs ++ ys) ≡ endings xs ++ endings ys
endings-append [] ys = refl
endings-append (fatal m c ∷ xs) ys = ap (λ cs. (m, c) ∷ cs) (endings-append xs ys)
endings-append (warn m ∷ xs) ys = endings-append xs ys
endings-append (effect e ∷ xs) ys = endings-append xs ys

endings-when : (b : Bool) (xs : List Step) → endings (when b xs) ≡ only b (endings xs)
endings-when true xs = refl
endings-when false xs = refl

only_none : (b : Bool) → only b [] ≡ []
only_none true = refl
only_none false = refl

append_right : (xs ys zs : List (Module × ℤ)) → (xs ++ ys) ++ zs ≡ xs ++ (ys ++ zs)
append_right [] ys zs = refl
append_right (x ∷ xs) ys zs = ap (λ cs. x ∷ cs) (append_right xs ys zs)

module _ (env : Node) where
  endings-base_plan :
      endings (base_plan env)
      ≡ (Module.enc, neg 56) ∷ only (env.server_enabled) ((Module.server, neg 4) ∷ [])
  unfolding base_plan
  endings-base_plan = simp (endings-append, endings-when, only_none)

  endings-plugin_plan :
      (dir : String) (override : Option String) → endings (plugin_plan env dir override) ≡ []
  unfolding plugin_plan
  endings-plugin_plan dir override = simp (endings-append, endings-when, only_none)

  endings-listen_plan : endings (listen_plan env) ≡ (Module.json_rpc, neg 12) ∷ []
  unfolding listen_plan
  endings-listen_plan = simp (endings-append, endings-when, only_none)

  endings-server_plan :
      endings (server_plan env)
      ≡ only (env.server_enabled && env.server_new) ((Module.json_rpc, neg 12) ∷ [])
  unfolding server_plan
  endings-server_plan = simp (endings-append, endings-when, only_none, endings-listen_plan)

  endings-last_plan :
      endings (last_plan env)
      ≡ only (env.vpn_enabled) ((Module.srv_vpn, neg 70) ∷ [])
        ++ (Module.vpn_client, neg 72) ∷ only (env.geoip_enabled) ((Module.geoip, neg 73) ∷ [])
  unfolding last_plan
  endings-last_plan = simp (endings-append, endings-when, only_none, append-nil)

  -- The plan ends the start exactly where these calls fail, under every configuration.
  pub endings-plan :
      (dir : String) (override : Option String) → endings (plan env dir override) ≡ checks env
  unfolding plan stream_plan chain_plan service_plan load_plan
  endings-plan dir override = simp (
    endings-append,
    endings-base_plan,
    endings-plugin_plan dir override,
    endings-server_plan,
    endings-last_plan,
    append_right,
  )
