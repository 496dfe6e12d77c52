-- ===== src/Tests.antt =====
-- Concrete inputs of the theorems: a host on which every law holds, a small bus, and its limits.
mod Host
mod Bus
mod Limits
mod Library
mod Pages
mod Runs
mod Connections
mod Ledgers
mod Budgets
mod Lives
mod Whole
mod Windows
mod Topologies
