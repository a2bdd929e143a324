-- ===== src/Conftool/Script/Assigned.antt =====
-- Which commands of a script change a variable (conftool/main.cpp, conftool/commands).
use cellframe_node.Prelude.{◌≡◌, refl, ◌∙◌, ap, Bool, false, List, [], ◌∷◌, All}
use cellframe_node.Prelude.Bytes.{Bytes, same}
use cellframe_node.Conftool.World.{Host, World, Run}
use cellframe_node.Conftool.Frame.{Frame, Respects}
use cellframe_node.Conftool.Variables.{substitute_variables}
use cellframe_node.Conftool.Variables.Storage.{find_var, find_var-put}
use cellframe_node.Conftool.Condition.{Condition, execute_variable}
use cellframe_node.Conftool.Script.{
  Command, network, net_list, config, fromtemplate, service, var, if_open, endif, execute,
  run_commands,
}
use cellframe_node.Conftool.Script.Lifting.{Respects-condition, Respects-All_commands}
use cellframe_node.Conftool.Script.Vars.{
  KeepsVars, KeepsVars-network, KeepsVars-net_list, KeepsVars-service, KeepsVars-template,
  KeepsVars-config,
}

-- The command is a `var` of this name.
abbrev pub assigns : Bytes → Command → Bool
assigns name (var c) = same c.var name
assigns name _ = false

abbrev pub Spares : Bytes → Command → Type 0
Spares name c = assigns name c ≡ false

-- The variable has the same value, or still none.
abbrev kept_frame : Bytes → Frame
kept_frame name = record {
  Holds = λ w w'. find_var name w'.vars ≡ find_var name w.vars;
  here = λ w. refl;
  after = λ a b c h k. k ∙ h;
  printed = λ o w. refl;
}

Respects-KeepsVars {ℓ} :
    {A : Type ℓ} (name : Bytes) (m : Run A) → KeepsVars m → Respects (kept_frame name) m
Respects-KeepsVars name m h w = ap (find_var name) (h w)

module _ (host : Host) (dry : Bool) (name : Bytes) where
  Respects-spared : (c : Command) → Spares name c → Respects (kept_frame name) (execute host dry c)
  unfolding execute execute_variable
  Respects-spared (network c) h =
      Respects-KeepsVars name (execute host dry (network c)) (KeepsVars-network host dry c)
  Respects-spared (net_list filter) h =
      Respects-KeepsVars name (execute host dry (net_list filter))
        (KeepsVars-net_list host dry filter)
  Respects-spared (config c) h =
      Respects-KeepsVars name (execute host dry (config c)) (KeepsVars-config host dry c)
  Respects-spared (fromtemplate c) h =
      Respects-KeepsVars name (execute host dry (fromtemplate c)) (KeepsVars-template host dry c)
  Respects-spared (service action) h =
      Respects-KeepsVars name (execute host dry (service action))
        (KeepsVars-service host dry host.platform action)
  Respects-spared (var c) h =
      λ w. rw (find_var-put c.var (substitute_variables w.vars c.val) name w.vars, h) refl
  Respects-spared (if_open c) h = Respects-condition (kept_frame name) c
  Respects-spared endif h = λ w. refl

  All-Spares :
      (cs : List Command)
      → All (Spares name) cs
      → All (λ c. Respects (kept_frame name) (execute host dry c)) cs
  All-Spares [] h = tt
  All-Spares (c ∷ cs) h = (Respects-spared c h.0, All-Spares cs h.1)

  -- Running any commands of which none is a `var` of this name leaves the variable as it was, with
  -- its value or without one: in a dry run or not, under any conditions, and also where a command
  -- raises or its behaviour is undefined. So the other commands set no variable, and `var` none but
  -- its own.
  pub find_var-run_commands :
      (stack : List Condition) (cs : List Command) (w : World)
      → All (Spares name) cs
      → find_var name (run_commands host dry stack cs w).1.vars ≡ find_var name w.vars
  find_var-run_commands stack cs w h =
      Respects-All_commands (kept_frame name) host dry cs stack (All-Spares cs h) w
