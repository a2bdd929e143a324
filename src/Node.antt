-- ===== src/Node.antt =====
-- sources/cellframe-node.c: the node's own process.
pub mod Decimal
pub mod PidLock
pub mod Boot
