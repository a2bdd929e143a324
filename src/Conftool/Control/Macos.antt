-- ===== src/Conftool/Control/Macos.antt =====
-- The service on macOS (conftool/service/service_macos.cpp and macos_auth.m).
use cellframe_node.Prelude.{ℕ, Bool, true, ◌∷◌, ◌++◌, ℤ, pos, is_zero}
use cellframe_node.Prelude.Bytes.{Bytes, codes}
use cellframe_node.Conftool.World.{Host, Run, done, ◌>>=◌, ◌>>◌, pure, run_system, scripted}
use cellframe_node.Conftool.Control.{Control, pgrep, status_of}

-- `callSecScript`: what the script returns is not looked at.
unfoldable pub call_sec_script : Bytes → Run ℤ
call_sec_script script w = (done (pos 0), record w { output = scripted script ∷ w.output })

abbrev pub launchctl : Bytes → Bytes
launchctl verb =
    codes "launchctl "
    ++ verb
    ++ codes " -w /Library/LaunchDaemons/com.demlabs.cellframe-node.plist"

-- `CServiceControl::enable`, which is `start` too, and `disable`, which is `stop`.
unfoldable pub load : Run Bool
unfolding call_sec_script
load = do res ← call_sec_script (launchctl (codes "load")); pure (is_zero res)

unfoldable pub unload : Run Bool
unfolding call_sec_script
unload = do res ← call_sec_script (launchctl (codes "unload")); pure (is_zero res)

abbrev pub launchctl_print : Bytes
launchctl_print = codes "launchctl print system/com.demlabs.cellframe-node > /dev/null"

module _ (host : Host) where
  unfoldable pub macos_status : Run ℕ
  macos_status = do
    enabled ← run_system host launchctl_print
    running ← run_system host pgrep
    pure (status_of enabled running)

  unfoldable pub macos_control : Control
  unfolding load unload macos_status
  macos_control = record {
    enable = load;
    disable = unload;
    service_status = macos_status;
    start = load;
    stop = unload;
    restart = (do unload; load; pure true);
  }
