-- ===== src/Conftool/Network/Paths.antt =====
-- The files of a network in its two states, and what `network` leaves of them.
use cellframe_node.Prelude.{
  ◌≡◌, refl, ◌≢◌, sym, ◌∙◌, ap, subst, ℕ, Bool, true, false, not, [], ◌∷◌, ◌++◌, append_assoc,
  arith,
}
use cellframe_node.Prelude.Bytes.{Bytes, codes, same}
use cellframe_node.Conftool.World.{Host, World, Vars}
use cellframe_node.Conftool.Path.{
  ◌/◌, general, on, off, template, config_path, net_path, network_dir, NetworkConfigState,
}
use cellframe_node.Conftool.Network.{
  default, ensure, NetworkCommand, state_of, execute_network, run_action,
}
use cellframe_node.Conftool.Network.Outcome.{
  DefaultOutcome, EnsureOutcome, default_net-DefaultOutcome, ensure_net-EnsureOutcome,
}

longer-differs : (s t : Bytes) (c : ℕ) → s ≢ s ++ (c ∷ t)
longer-differs [] t c e = cc e
longer-differs (x ∷ s) t c e = longer-differs s t c (ap tail e)
  where
    tail : Bytes → Bytes
    tail [] = []
    tail (_ ∷ xs) = xs

-- More at the end of a name is more at the end of the path.
slash-append : (d : Bytes) (c : ℕ) (b t : Bytes) → d / ((c ∷ b) ++ t) ≡ (d / (c ∷ b)) ++ t
unfolding ◌/◌
slash-append [] c b t = refl
slash-append (x ∷ d) c b t =
    ground (arith, append_assoc (x ∷ d) (c ∷ b) t, append_assoc (x ∷ d) (b'/' ∷ c ∷ b) t)

suffix-differs :
    (d n a : Bytes) (c x : ℕ) (t : Bytes) → d / (n ++ (c ∷ a)) ≢ d / (n ++ (c ∷ a ++ (x ∷ t)))
suffix-differs d [] a c x t e = longer-differs (d / (c ∷ a)) t x (e ∙ slash-append d c a (x ∷ t))
suffix-differs d (y ∷ n) a c x t e = longer-differs (d / (y ∷ n ++ (c ∷ a))) t x (
    e
    ∙ ap (λ s. d / (y ∷ s)) (sym (append_assoc n (c ∷ a) (x ∷ t)))
    ∙ slash-append d y (n ++ (c ∷ a)) (x ∷ t))

-- The configuration is that of a network.
abbrev pub is_network : Bytes → Bool
is_network name = not (same name (codes "cellframe-node"))

module _ (name : Bytes) (vars : Vars) where
  abbrev pub path_of : NetworkConfigState → Bytes
  path_of state = config_path name general state vars

  of_network :
      (state : NetworkConfigState)
      → is_network name ≡ true
      → path_of state ≡ net_path name general state vars
  unfolding config_path
  of_network state h = ground arith

  on-off : is_network name ≡ true → path_of on ≢ path_of off
  on-off h e =
      suffix-differs (network_dir vars) name (codes "cfg") b'.' b'.' (codes "dis")
        (sym (of_network on h) ∙ e ∙ of_network off h)

  pub states-differ :
      (b : Bool) → is_network name ≡ true → path_of (state_of b) ≢ path_of (state_of (not b))
  states-differ true h e = on-off h e
  states-differ false h e = on-off h (sym e)

module _ (host : Host) (c : NetworkCommand) (w : World) (net : is_network c.net_name ≡ true) where
  abbrev pub path : NetworkConfigState → Bytes
  path = path_of c.net_name w.vars

  -- `network NAME ensure`, other than in a dry run, ends in one of these ways. The file of the
  -- requested state is there, that of the other is not, and no other file and no variable is
  -- changed. Or the network was to be switched on and had both files: then no file and no variable
  -- is changed, and both are there. Or an exception is raised and no file and no variable is
  -- changed. The name is that of a network and not of the node.
  pub execute_network-EnsureOutcome :
      (enable : Bool)
      → c.action ≡ ensure enable
      → EnsureOutcome host c.net_name
          (path (state_of enable))
          (path (state_of (not enable)))
          (path template)
          (states-differ c.net_name w.vars enable net)
          w
          enable
          (execute_network host false c w)
  unfolding execute_network
  execute_network-EnsureOutcome enable e =
      subst
        (λ a.
          EnsureOutcome host c.net_name (path (state_of enable)) (path (state_of (not enable)))
            (path template) (states-differ c.net_name w.vars enable net) w enable
            (run_action host false path c.net_name a w))
        (sym e)
        (ensure_net-EnsureOutcome host c.net_name (path (state_of enable))
          (path (state_of (not enable))) (path template)
          (states-differ c.net_name w.vars enable net) w enable)

  -- `network NAME default` of a network that has a file in either state, and a dry run, change no
  -- file and no variable and raise no exception. Otherwise the file of the requested state, and no
  -- other, is made with the template's content, or an exception is raised and no file and no
  -- variable is changed. The name is that of a network and not of the node.
  pub execute_network-DefaultOutcome :
      (dry enable : Bool)
      → c.action ≡ default enable
      → DefaultOutcome host c.net_name
          (path (state_of enable))
          (path (state_of (not enable)))
          (path template)
          (states-differ c.net_name w.vars enable net)
          w
          dry
          (execute_network host dry c w)
  unfolding execute_network
  execute_network-DefaultOutcome dry enable e =
      subst
        (λ a.
          DefaultOutcome host c.net_name (path (state_of enable)) (path (state_of (not enable)))
            (path template) (states-differ c.net_name w.vars enable net) w dry
            (run_action host dry path c.net_name a w))
        (sym e)
        (default_net-DefaultOutcome host c.net_name (path (state_of enable))
          (path (state_of (not enable))) (path template)
          (states-differ c.net_name w.vars enable net) w dry enable)
