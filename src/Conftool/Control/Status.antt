-- ===== src/Conftool/Control/Status.antt =====
-- What `service status` says on each system.
use cellframe_node.Prelude.{◌≡◌, refl, Bool, true, false, ◌||◌, List, [], ◌∷◌, arith}
use cellframe_node.Prelude.Bytes.{Bytes, codes, same}
use cellframe_node.Conftool.World.{
  Host, Platform, linux, android, macos, World, Output, done, ran, said,
}
use cellframe_node.Conftool.Control.{Control, pgrep, systemctl, linux_status, linux_control}
use cellframe_node.Conftool.Control.Posix.{control_for}
use cellframe_node.Conftool.Control.Macos.{launchctl_print, macos_status, macos_control}
use cellframe_node.Conftool.Control.Windows.{
  Windows, process_loop, is_process_running, schtasks_query, node_exe, windows_status,
  windows_control,
}
use cellframe_node.Conftool.Service.{execute_service}

-- The systems that conftool is built for.
pub data System : Type 0 where
  posix : Platform → System
  win32 : Windows → System

-- Whether one of the names is equal to this one.
unfoldable pub is_among : (Bytes → Bytes → Bool) → Bytes → List Bytes → Bool
is_among equal name [] = false
is_among equal name (p ∷ ps) = equal p name || is_among equal name ps

process_loop-is_among :
    (equal : Bytes → Bytes → Bool) (name entry : Bytes) (rest : List Bytes)
    → process_loop equal name entry rest ≡ is_among equal name (entry ∷ rest)
unfolding process_loop is_among
process_loop-is_among equal name entry [] = ground arith
process_loop-is_among equal name entry (next ∷ rest) =
    ground (arith, process_loop-is_among equal name next rest)

pub is_process_running-is_among :
    (equal : Bytes → Bytes → Bool) (name : Bytes) (ps : List Bytes)
    → is_process_running equal name ps ≡ is_among equal name ps
unfolding is_process_running is_among
is_process_running-is_among equal name [] = refl
is_process_running-is_among equal name (p ∷ ps) = process_loop-is_among equal name p ps

-- The question about the service, and the two lines of the answer.
abbrev pub query : System → Bytes
query (posix macos) = launchctl_print
query (posix _) = codes "systemctl is-enabled cellframe-node.service > /dev/null"
query (win32 _) = schtasks_query

abbrev pub service_line : Bool → Output
service_line true = said (codes "service: enabled")
service_line false = said (codes "service: disabled")

abbrev pub process_line : Bool → Output
process_line true = said (codes "process: running")
process_line false = said (codes "process: notfound")

module _ (host : Host) where
  abbrev pub control_of : System → Control
  control_of (posix platform) = control_for host platform
  control_of (win32 windows) = windows_control windows host

  -- Whether there is a process, and what asking for it leaves.
  abbrev pub process_found : System → List Output → Bool
  process_found (win32 windows) out = is_among windows.tcsicmp node_exe (windows.processes out)
  process_found _ out = host.system out pgrep

  abbrev pub process_asked : System → Bool → List Output → List Output
  process_asked (win32 windows) true out = said (codes "proc running") ∷ out
  process_asked (win32 windows) false out = out
  process_asked _ found out = ran pgrep found ∷ out

  -- `service status` on Linux, Android, macOS and Windows says of the service whether the system's own
  -- command about it returned 0, and of the node whether a process of its name was found then (on
  -- Windows: among the names of all processes), whichever of the four answers this makes; its own
  -- result is true.
  pub execute_service-status :
      (system : System) (w : World)
      → let enabled = host.system w.output (query system) in
        let asked = ran (query system) enabled ∷ w.output in
        let running = process_found system asked in
        execute_service (control_of system) (codes "status") w ≡ (
          done true,
          record w {
            output =
                process_line running ∷ service_line enabled ∷ process_asked system running asked;
          },
        )
  unfolding execute_service same control_for linux_control macos_control windows_control
      linux_status systemctl macos_status windows_status
  execute_service-status (posix linux) w = ground arith
  execute_service-status (posix android) w = ground arith
  execute_service-status (posix macos) w = ground arith
  execute_service-status (win32 windows) w =
      rw
        (is_process_running-is_among windows.tcsicmp node_exe
          (windows.processes (ran schtasks_query (host.system w.output schtasks_query) ∷ w.output)))
        (ground arith)
