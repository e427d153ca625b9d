-- ===== src/Node.antt =====
-- mdrj/node.py: what the node does with the parts.
pub mod Peers
pub mod Emit
pub mod Retention
pub mod Recompute
pub mod Members
