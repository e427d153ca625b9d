-- ===== src/Tests.antt =====
-- Runs of the theorems on small inputs.
mod Samples
mod Clocks
mod Graphs
mod Elections
mod Orders
mod Checkpoints
mod Batches
mod Tables
mod Contacts
mod Ticks
mod Accounts
mod Records
mod Nodes
mod Sorting
mod Recomputes
