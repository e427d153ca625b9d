-- ===== src/Consensus.antt =====
-- mdrj/consensus.py: rounds, witnesses, fame votes, the round and time at which an event is
-- received, and the total order.
pub mod Membership
pub mod Ancestry
pub mod Rounds
pub mod Fame
pub mod Received
pub mod Timestamp
pub mod Order
pub mod Recompute
