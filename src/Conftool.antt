-- ===== src/Conftool.antt =====
-- conftool: the tool that sets the node's configuration up, cellframe-node-config.
pub mod ConfigFile
pub mod World
pub mod Frame
pub mod Variables
pub mod Path
pub mod Network
pub mod Config
pub mod Template
pub mod Condition
pub mod Control
pub mod Service
pub mod Script
pub mod Main
pub mod Registry
mod Examples
