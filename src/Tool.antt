-- ===== src/Tool.antt =====
-- sources/main_node_tool.c: the program that creates and shows wallets and certificates.
pub mod Help
pub mod Calls
pub mod Arguments
pub mod Wallet
pub mod Cert
pub mod Init
pub mod Dispatch
pub mod Helpers
mod Examples
