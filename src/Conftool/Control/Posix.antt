-- ===== src/Conftool/Control/Posix.antt =====
-- Which of the implementations of conftool/service/service.h is built.
use cellframe_node.Conftool.World.{Host, Platform, linux, android, macos}
use cellframe_node.Conftool.Control.{Control, linux_control}
use cellframe_node.Conftool.Control.Macos.{macos_control}

module _ (host : Host) where
  unfoldable pub control_for : Platform → Control
  unfolding linux_control macos_control
  control_for linux = linux_control host
  control_for android = linux_control host
  control_for macos = macos_control host
