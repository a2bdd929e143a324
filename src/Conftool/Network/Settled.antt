-- ===== src/Conftool/Network/Settled.antt =====
-- `network NAME ensure` for the second time.
use cellframe_node.Prelude.{
  ◌≡◌, ◌≢◌, ◌⊎◌, inl, inr, sym, subst, ◌∷◌, Bool, true, false, not, arith, is_some,
}
use cellframe_node.Prelude.Bytes.{Bytes, same_iff}
use cellframe_node.Conftool.World.{Host, World, done, noted, is_settled}
use cellframe_node.Conftool.Path.{general, template, config_path, NetworkConfigState}
use cellframe_node.Conftool.Network.{
  ensure, NetworkCommand, state_of, ensure_net, execute_network, run_action,
}
use cellframe_node.Conftool.Network.Outcome.{Switched, EnsureOutcome}
use cellframe_node.Conftool.Network.Paths.{
  is_network, path_of, states-differ, execute_network-EnsureOutcome,
}

-- Where `ensure` has nothing to do.
abbrev Settled : Bool → Bytes → Bytes → World → Type 0
Settled enable requested opposite w =
    (is_some (w.files requested) ≡ true) × ((enable ≡ true) ⊎ (is_some (w.files opposite) ≡ false))

Settled-ensure_net :
    (host : Host) (enable : Bool) (name requested opposite from : Bytes) (w : World)
    → Settled enable requested opposite w
    → ensure_net host false enable name requested opposite from w
      ≡ (done false, record w { output = noted (is_settled name enable) ∷ w.output })
unfolding ensure_net
Settled-ensure_net host enable name requested opposite from w (e, inl h) = ground arith
Settled-ensure_net host enable name requested opposite from w (e, inr h) = ground arith

module _ (host : Host) (name requested opposite from : Bytes) (differ : requested ≢ opposite)
    (w : World) where
  opposite_gone :
      (w' : World)
      → Switched host name requested opposite from differ w w'
      → is_some (w'.files opposite) ≡ false
  opposite_gone w' s =
      ground (arith, s.1 opposite, same_iff opposite requested, same_iff opposite opposite)

  Settled-EnsureOutcome :
      (enable b : Bool) (w' : World)
      → EnsureOutcome host name requested opposite from differ w enable (done b, w')
      → Settled enable requested opposite w' × (w'.vars ≡ w.vars)
  Settled-EnsureOutcome enable b w' (inl s) = ((s.0, inr (opposite_gone w' s)), s.2)
  Settled-EnsureOutcome enable b w' (inr k) = (
    subst
        (λ files.
          (is_some (files requested) ≡ true)
          × ((enable ≡ true) ⊎ (is_some (files opposite) ≡ false)))
        (sym (k.1.0)) (ground arith, inl (ground arith)),
    k.1.1,
  )

-- `network NAME ensure`, other than in a dry run, that has ended without an exception, is done: the
-- same command again, in the world that it has left, says so, changes nothing and returns false.
-- The name is that of a network and not of the node.
pub execute_network_settled :
    (host : Host) (c : NetworkCommand) (w : World) (enable b : Bool) (w' : World)
    → is_network c.net_name ≡ true
    → c.action ≡ ensure enable
    → execute_network host false c w ≡ (done b, w')
    → execute_network host false c w'
      ≡ (done false, record w' { output = noted (is_settled c.net_name enable) ∷ w'.output })
unfolding execute_network
execute_network_settled host c w enable b w' net e first =
    subst
      (λ a.
        run_action host false (λ state. config_path c.net_name general state w'.vars) c.net_name a
          w'
        ≡ (done false, record w' { output = noted (is_settled c.net_name enable) ∷ w'.output }))
      (sym e)
      (subst
        (λ vars.
          run_action host false (λ state. config_path c.net_name general state vars) c.net_name
            (ensure enable) w'
          ≡ (done false, record w' { output = noted (is_settled c.net_name enable) ∷ w'.output }))
        (sym (settled.1))
        (Settled-ensure_net host enable c.net_name (path (state_of enable))
          (path (state_of (not enable))) (path template) w' (settled.0)))
  where
    path : NetworkConfigState → Bytes
    path = path_of c.net_name w.vars

    settled :
        Settled enable (path (state_of enable)) (path (state_of (not enable))) w'
        × (w'.vars ≡ w.vars)
    settled =
        Settled-EnsureOutcome host c.net_name (path (state_of enable))
          (path (state_of (not enable))) (path template)
          (states-differ c.net_name w.vars enable net) w enable b w'
          (subst
            (EnsureOutcome host c.net_name (path (state_of enable)) (path (state_of (not enable)))
              (path template) (states-differ c.net_name w.vars enable net) w enable)
            first (execute_network-EnsureOutcome host c w net enable e))
