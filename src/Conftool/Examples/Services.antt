-- ===== src/Conftool/Examples/Services.antt =====
-- Runs of `service` on the three systems.
use cellframe_node.Prelude.{◌≡◌, refl, none, [], ◌∷◌, ◌++◌, true}
use cellframe_node.Prelude.Bytes.{codes, same}
use cellframe_node.Conftool.World.{done, said, ran}
use cellframe_node.Conftool.Control.Windows.{
  Windows, Shell, cancelled, node_exe, schtasks_query, windows_control,
}
use cellframe_node.Conftool.Control.Status.{win32, control_of, is_among, execute_service-status}
use cellframe_node.Conftool.Control.Actions.{restart, refusals, execute_service-refused}
use cellframe_node.Conftool.Service.{execute_service}
use cellframe_node.Conftool.Examples.{host, world}

-- A system on which every program comes to this, and the node runs beside another process.
abbrev system : Shell → Windows
system shell = record {
  shell_execute = λ out app cmd. shell;
  exit_code = λ out. none;
  processes = λ out. codes "explorer.exe" ∷ node_exe ∷ [];
  tcsicmp = same;
  joined = λ a b. a ++ b'\\' ∷ b;
}

abbrev windows : Windows
windows = system cancelled

execute_service-status_example :
    execute_service (control_of host (win32 windows)) (codes "status") world ≡ (
      done true,
      record world {
        output =
            said (codes "process: running")
            ∷ said (codes "service: enabled")
            ∷ said (codes "proc running")
            ∷ ran schtasks_query true
            ∷ [];
      },
    )
unfolding is_among same
execute_service-status_example = execute_service-status host (win32 windows) world

execute_service-refused_example :
    execute_service (windows_control windows host) (codes "restart") world ≡ (
      done true,
      record world { output = said (codes "restarted") ∷ (refusals windows restart [] ++ []) },
    )
execute_service-refused_example =
    execute_service-refused host windows restart world (λ out app cmd. refl)
