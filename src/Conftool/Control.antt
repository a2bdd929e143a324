-- ===== src/Conftool/Control.antt =====
-- The functions of conftool/service/service.h, and what they do on Linux
-- (conftool/service/service_linux.cpp).
pub mod Macos
pub mod Posix
pub mod Windows
pub mod Status
pub mod Actions
use cellframe_node.Prelude.{ℕ, Bool, ◌++◌}
use cellframe_node.Prelude.Number.{set_bit}
use cellframe_node.Prelude.Bytes.{Bytes, codes}
use cellframe_node.Conftool.World.{Host, Run, ◌>>=◌, ◌>>◌, pure, variables, run_system}
use cellframe_node.Conftool.Path.{◌/◌, configs_path}

-- `CServiceControl`
pub record Control : Type 0 where
  pub enable : Run Bool
  pub disable : Run Bool
  pub service_status : Run ℕ
  pub start : Run Bool
  pub stop : Run Bool
  pub restart : Run Bool

-- `EServiceStatus`
abbrev pub service_enabled : ℕ
service_enabled = 1

abbrev pub process_running : ℕ
process_running = 4

abbrev pub pgrep : Bytes
pgrep = codes "pgrep -x cellframe-node > /dev/null"

-- What all three systems make of their two answers.
abbrev pub status_of : Bool → Bool → ℕ
status_of enabled running = set_bit process_running running (set_bit service_enabled enabled 0)

module _ (host : Host) where
  unfoldable pub systemctl : Bytes → Run Bool
  systemctl verb =
      run_system host (codes "systemctl " ++ verb ++ codes " cellframe-node.service > /dev/null")

  unfoldable pub enable_service : Run Bool
  unfolding ◌/◌
  enable_service = do
    vars ← variables
    run_system host (
        codes "systemctl enable "
        ++ (configs_path vars / codes "share" / codes "cellframe-node.service > /dev/null"))

  unfoldable pub linux_status : Run ℕ
  unfolding systemctl
  linux_status = do
    enabled ← systemctl (codes "is-enabled")
    running ← run_system host pgrep
    pure (status_of enabled running)

  unfoldable pub linux_control : Control
  unfolding systemctl enable_service linux_status
  linux_control = record {
    enable = enable_service;
    disable = systemctl (codes "disable");
    service_status = linux_status;
    start = systemctl (codes "start");
    stop = systemctl (codes "stop");
    restart = systemctl (codes "restart");
  }
