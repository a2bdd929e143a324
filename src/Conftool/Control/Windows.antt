-- ===== src/Conftool/Control/Windows.antt =====
-- The service on Windows (conftool/service/service_win.cpp).
use cellframe_node.Prelude.{
  ℕ, Bool, true, false, Option, none, some, List, [], ◌∷◌, ◌++◌, if◌then◌else◌, ℤ, neg, is_zero,
}
use cellframe_node.Prelude.Number.{to_int}
use cellframe_node.Prelude.Bytes.{Bytes, codes}
use cellframe_node.Conftool.World.{
  Host, Run, Output, done, ◌>>=◌, ◌>>◌, pure, undefined_behaviour, print, said, elevated,
  exec_failed, variables, run_system,
}
use cellframe_node.Conftool.Variables.{get_var}
use cellframe_node.Conftool.Control.{Control, status_of}

-- What `ShellExecuteEx` comes to, with the error if it is another than `ERROR_CANCELLED`.
pub data Shell : Type 0 where
  launched cancelled : Shell
  failed : ℕ → Shell

-- The answers of the system.
pub record Windows : Type 0 where
  pub shell_execute : List Output → Bytes → Bytes → Shell
  -- what `GetExitCodeProcess` stores for the process of `sei`, if it succeeds
  pub exit_code : List Output → Option ℕ
  -- the names in the snapshot, in its order
  pub processes : List Output → List Bytes
  -- whether `_tcsicmp` returns 0
  pub tcsicmp : Bytes → Bytes → Bool
  -- `operator/` of paths
  pub joined : Bytes → Bytes → Bytes

-- `return rc`, where `rc` is not initialised: undefined if nothing was stored.
abbrev pub return_rc : Option ℕ → Run ℤ
return_rc none = undefined_behaviour
return_rc (some rc) = pure (to_int rc)

-- The loop from the entry that `Process32First` or `Process32Next` has filled in.
unfoldable pub process_loop : (Bytes → Bytes → Bool) → Bytes → Bytes → List Bytes → Bool
process_loop equal name entry [] = equal entry name
process_loop equal name entry (next ∷ rest) =
    let more = process_loop equal name next rest in if equal entry name then true else more

unfoldable pub is_process_running : (Bytes → Bytes → Bool) → Bytes → List Bytes → Bool
unfolding process_loop
is_process_running equal name [] = false
is_process_running equal name (entry ∷ rest) = process_loop equal name entry rest

abbrev pub schtasks_query : Bytes
schtasks_query = codes "schtasks /query  /TN CellframeNode"

abbrev pub node_exe : Bytes
node_exe = codes "cellframe-node.exe"

module _ (windows : Windows) where
  abbrev pub behind_shell : Shell → Run ℤ
  behind_shell cancelled = do print (said (codes "End user did not allow elevation")); pure (neg 1)
  behind_shell (failed e) = do
    print (exec_failed e)
    (λ w. return_rc (windows.exit_code w.output) w)
  behind_shell launched = λ w. return_rc (windows.exit_code w.output) w

  -- `runShellAdmin`
  unfoldable pub run_shell_admin : Bytes → Bytes → Run ℤ
  run_shell_admin app cmd w =
      behind_shell (windows.shell_execute w.output app cmd)
        (record w { output = elevated app cmd ∷ w.output })

  unfoldable pub shell_ok : Bytes → Bytes → Run Bool
  unfolding run_shell_admin
  shell_ok app cmd = do res ← run_shell_admin app cmd; pure (is_zero res)

  unfoldable pub create_task : Run Bool
  unfolding shell_ok get_var
  create_task = do
    vars ← variables
    shell_ok (codes "schtasks.exe") (
        codes "/Create /F /RL highest /SC onlogon /TR \"'"
        ++ windows.joined (get_var (codes "NODE_BINARY_PATH") vars) node_exe
        ++ codes "'\" /TN CellframeNode")

  unfoldable pub run_task : Run Bool
  unfolding shell_ok
  run_task = shell_ok (codes "schtasks.exe") (codes "/run  /TN CellframeNode")

  unfoldable pub kill_task : Run Bool
  unfolding shell_ok
  kill_task = shell_ok (codes "taskkill.exe") (codes "/IM cellframe-node.exe  /F")

  module _ (host : Host) where
    unfoldable pub windows_status : Run ℕ
    unfolding is_process_running
    windows_status = do
      enabled ← run_system host schtasks_query
      running ← (λ w.
          (done (is_process_running windows.tcsicmp node_exe (windows.processes w.output)), w))
      (if running then print (said (codes "proc running")) else pure tt)
      pure (status_of enabled running)

    unfoldable pub windows_control : Control
    unfolding shell_ok create_task run_task kill_task windows_status
    windows_control = record {
      enable = create_task;
      disable = shell_ok (codes "schtasks.exe") (codes "/Delete  /TN CellframeNode /f");
      service_status = windows_status;
      start = run_task;
      stop = kill_task;
      restart = (do kill_task; run_task; pure true);
    }
