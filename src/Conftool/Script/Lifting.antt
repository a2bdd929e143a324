-- ===== src/Conftool/Script/Lifting.antt =====
-- What every command of a list respects, `run_commands` respects.
use cellframe_node.Prelude.{All, Bool, List, [], ◌∷◌, if◌then◌else◌}
use cellframe_node.Conftool.World.{Host, ◌>>◌, pure}
use cellframe_node.Conftool.Frame.{Frame, Respects, Respects-bind, Respects-if}
use cellframe_node.Conftool.Condition.{Condition, execute_condition}
use cellframe_node.Conftool.Script.{
  Command, execute, run_guarded, run_step, run_commands, Role, opens, closes, plain, role_of,
}

module _ (frame : Frame) where
  pub Respects-condition : (c : Condition) → Respects frame (execute_condition c)
  unfolding execute_condition
  Respects-condition c w = frame.here w

  module _ (host : Host) (dry : Bool) where
    abbrev IsRespected : Command → Type 0
    IsRespected c = Respects frame (execute host dry c)

    Respects-then_done :
        (c : Command)
        → IsRespected c
        → Respects {0} frame {A = Unit {0}} (execute host dry c >> pure tt)
    Respects-then_done c h =
        Respects-bind frame (execute host dry c) (λ _. pure tt) h (λ _ w. frame.here w)

    Respects-run_guarded :
        (stack : List Condition) (c : Command)
        → IsRespected c
        → Respects frame (run_guarded host dry stack c)
    unfolding run_guarded
    Respects-run_guarded [] c h w = Respects-then_done c h w
    Respects-run_guarded (cond ∷ _) c h w =
        Respects-bind frame (execute_condition cond)
          (λ passed. if passed then (execute host dry c >> pure tt) else pure tt)
          (Respects-condition cond)
          (λ passed.
            Respects-if frame passed (execute host dry c >> pure tt) (pure tt)
              (Respects-then_done c h) (λ w'. frame.here w'))
          w

    Respects-run_step :
        (role : Role) (stack : List Condition) (c : Command)
        → IsRespected c
        → Respects frame (run_step host dry role stack c)
    unfolding run_step
    Respects-run_step (opens cond) stack c h w = frame.here w
    Respects-run_step closes [] c h w = frame.here w
    Respects-run_step closes (cond ∷ stack) c h w = frame.here w
    Respects-run_step plain stack c h w =
        Respects-bind frame (run_guarded host dry stack c) (λ _. pure stack)
          (Respects-run_guarded stack c h) (λ _ w'. frame.here w') w

    pub Respects-All_commands :
        (cs : List Command) (stack : List Condition)
        → All IsRespected cs
        → Respects frame (run_commands host dry stack cs)
    unfolding run_commands
    Respects-All_commands [] stack h w = frame.here w
    Respects-All_commands (c ∷ cs) stack h w =
        Respects-bind frame (run_step host dry (role_of c) stack c)
          (λ next. run_commands host dry next cs) (Respects-run_step (role_of c) stack c h.0)
          (λ next. Respects-All_commands cs next h.1) w

    All-IsRespected : ((c : Command) → IsRespected c) → (cs : List Command) → All IsRespected cs
    All-IsRespected each [] = tt
    All-IsRespected each (c ∷ cs) = (each c, All-IsRespected each cs)

    pub Respects-run_commands :
        ((c : Command) → IsRespected c)
        → (cs : List Command) (stack : List Condition)
        → Respects frame (run_commands host dry stack cs)
    Respects-run_commands each cs stack = Respects-All_commands cs stack (All-IsRespected each cs)
