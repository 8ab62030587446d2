-- ===== src/Tests.antt =====
-- Runs on concrete inputs, and an instance of each theorem whose statement has conditions.
mod Data
mod Storages
mod Nodes
mod Buffers
mod Controls
mod Clients
mod Chains
mod Wakeups
mod Guis
mod Clis
