-- ===== src/Conftool/Control/Actions.antt =====
-- What `service` with an action says on macOS and on Windows, where it is not told what happened.
use cellframe_node.Prelude.{◌≡◌, refl, ◌∙◌, ap, true, false, none, List, [], ◌∷◌, ◌++◌}
use cellframe_node.Prelude.Bytes.{Bytes, codes, same}
use cellframe_node.Conftool.World.{
  Host, World, Vars, Output, done, undefined, and_then, ◌>>◌, pure, said, scripted, elevated,
}
use cellframe_node.Conftool.Variables.{get_var}
use cellframe_node.Conftool.Control.Macos.{launchctl, call_sec_script, load, unload, macos_control}
use cellframe_node.Conftool.Control.Windows.{
  Windows, launched, cancelled, node_exe, run_shell_admin, shell_ok, create_task, run_task,
  kill_task, windows_control,
}
use cellframe_node.Conftool.Service.{execute_service, say}

-- The actions that change something, their words, and what is printed if they succeed.
pub data Action : Type 0 where
  enable disable start stop restart : Action

abbrev pub name_of : Action → Bytes
name_of enable = codes "enable"
name_of disable = codes "disable"
name_of start = codes "start"
name_of stop = codes "stop"
name_of restart = codes "restart"

abbrev pub success : Action → Bytes
success enable = codes "enabled"
success disable = codes "disabled"
success start = codes "started"
success stop = codes "stoped"
success restart = codes "restarted"

-- What is run on macOS, the last first.
abbrev pub scripts : Action → List Output
scripts enable = scripted (launchctl (codes "load")) ∷ []
scripts disable = scripted (launchctl (codes "unload")) ∷ []
scripts start = scripted (launchctl (codes "load")) ∷ []
scripts stop = scripted (launchctl (codes "unload")) ∷ []
scripts restart = scripted (launchctl (codes "load")) ∷ scripted (launchctl (codes "unload")) ∷ []

module _ (host : Host) where
  -- On macOS each of the actions runs its scripts of launchctl and says that it has succeeded,
  -- whatever the system answers to anything; `start` is `enable` and `stop` is `disable`.
  pub execute_service-unchecked :
      (action : Action) (w : World)
      → execute_service (macos_control host) (name_of action) w
        ≡ (done true, record w { output = said (success action) ∷ (scripts action ++ w.output) })
  unfolding execute_service same macos_control load unload call_sec_script
  execute_service-unchecked enable w = refl
  execute_service-unchecked disable w = refl
  execute_service-unchecked start w = refl
  execute_service-unchecked stop w = refl
  execute_service-unchecked restart w = refl

-- The program and its parameters that an action starts first on Windows.
abbrev pub schtasks : Bytes
schtasks = codes "schtasks.exe"

abbrev pub taskkill : Bytes
taskkill = codes "taskkill.exe"

abbrev pub delete_cmd : Bytes
delete_cmd = codes "/Delete  /TN CellframeNode /f"

abbrev pub kill_cmd : Bytes
kill_cmd = codes "/IM cellframe-node.exe  /F"

abbrev pub run_cmd : Bytes
run_cmd = codes "/run  /TN CellframeNode"

unfoldable pub create_cmd : Windows → Vars → Bytes
unfolding get_var
create_cmd windows vars =
    codes "/Create /F /RL highest /SC onlogon /TR \"'"
    ++ windows.joined (get_var (codes "NODE_BINARY_PATH") vars) node_exe
    ++ codes "'\" /TN CellframeNode"

abbrev pub refusal : Bytes → Bytes → List Output
refusal app cmd = said (codes "End user did not allow elevation") ∷ elevated app cmd ∷ []

-- The refusals that an action meets, the last first, and what it says behind them.
unfoldable pub refusals : Windows → Action → Vars → List Output
unfolding create_cmd
refusals windows enable vars = refusal schtasks (create_cmd windows vars)
refusals windows disable vars = refusal schtasks delete_cmd
refusals windows start vars = refusal schtasks run_cmd
refusals windows stop vars = refusal taskkill kill_cmd
refusals windows restart vars = refusal schtasks run_cmd ++ refusal taskkill kill_cmd

abbrev pub said_refused : Action → Bytes
said_refused restart = codes "restarted"
said_refused _ = codes "error"

abbrev IsRefusing : Windows → Type 0
IsRefusing windows =
    (out : List Output) (app cmd : Bytes) → windows.shell_execute out app cmd ≡ cancelled

abbrev IsLaunching : Windows → Type 0
IsLaunching windows =
    (out : List Output) (app cmd : Bytes) → windows.shell_execute out app cmd ≡ launched

abbrev HasNoHandle : Windows → Type 0
HasNoHandle windows = (out : List Output) → windows.exit_code out ≡ none

module _ (host : Host) (windows : Windows) where
  shell_ok-refused :
      (app cmd : Bytes) (w : World)
      → IsRefusing windows
      → shell_ok windows app cmd w ≡ (done false, record w { output = refusal app cmd ++ w.output })
  unfolding shell_ok run_shell_admin
  shell_ok-refused app cmd w h = rw (h w.output app cmd) refl

  shell_ok-no_handle :
      (app cmd : Bytes) (w : World)
      → IsLaunching windows
      → HasNoHandle windows
      → shell_ok windows app cmd w ≡ (undefined, record w { output = elevated app cmd ∷ w.output })
  unfolding shell_ok run_shell_admin
  shell_ok-no_handle app cmd w h k = rw (h w.output app cmd, k (elevated app cmd ∷ w.output)) refl

  -- On Windows, where the user allows none of the programs to be run as an administrator, every
  -- action says so once for each of its programs; then `enable`, `disable`, `start` and `stop` say
  -- "error", and `restart` says "restarted".
  pub execute_service-refused :
      (action : Action) (w : World)
      → IsRefusing windows
      → execute_service (windows_control windows host) (name_of action) w ≡ (
        done true,
        record w {
          output = said (said_refused action) ∷ (refusals windows action w.vars ++ w.output);
        },
      )
  unfolding execute_service same windows_control shell_ok create_task run_task kill_task
      run_shell_admin refusals create_cmd
  execute_service-refused enable w h =
      ap (and_then (λ ok. say ok (success enable)))
        (shell_ok-refused schtasks (create_cmd windows w.vars) w h)
  execute_service-refused disable w h =
      ap (and_then (λ ok. say ok (success disable))) (shell_ok-refused schtasks delete_cmd w h)
  execute_service-refused start w h =
      ap (and_then (λ ok. say ok (success start))) (shell_ok-refused schtasks run_cmd w h)
  execute_service-refused stop w h =
      ap (and_then (λ ok. say ok (success stop))) (shell_ok-refused taskkill kill_cmd w h)
  execute_service-refused restart w h = ap (and_then (λ ok. say ok (success restart))) (
      ap (and_then (λ _. shell_ok windows schtasks run_cmd >> pure true))
        (shell_ok-refused taskkill kill_cmd w h)
      ∙ ap (and_then (λ _. pure true)) (
          shell_ok-refused schtasks run_cmd
            (record w { output = refusal taskkill kill_cmd ++ w.output }) h))

  -- On Windows, where a program is launched each time and `GetExitCodeProcess` stores no exit code,
  -- as it does for the null handle that `ShellExecuteEx` leaves unless it is told to keep the
  -- process, the behaviour of each action is undefined.
  pub execute_service-no_handle :
      (action : Action) (w : World)
      → IsLaunching windows
      → HasNoHandle windows
      → (execute_service (windows_control windows host) (name_of action) w).0 ≡ undefined
  unfolding execute_service same windows_control shell_ok create_task run_task kill_task
      run_shell_admin create_cmd
  execute_service-no_handle enable w h k =
      ap (λ p. (and_then (λ ok. say ok (success enable)) p).0)
        (shell_ok-no_handle schtasks (create_cmd windows w.vars) w h k)
  execute_service-no_handle disable w h k =
      ap (λ p. (and_then (λ ok. say ok (success disable)) p).0)
        (shell_ok-no_handle schtasks delete_cmd w h k)
  execute_service-no_handle start w h k =
      ap (λ p. (and_then (λ ok. say ok (success start)) p).0)
        (shell_ok-no_handle schtasks run_cmd w h k)
  execute_service-no_handle stop w h k =
      ap (λ p. (and_then (λ ok. say ok (success stop)) p).0)
        (shell_ok-no_handle taskkill kill_cmd w h k)
  execute_service-no_handle restart w h k =
      ap
        (λ p.
          (and_then (λ ok. say ok (success restart))
            (and_then (λ _. shell_ok windows schtasks run_cmd >> pure true) p)).0)
        (shell_ok-no_handle taskkill kill_cmd w h k)
