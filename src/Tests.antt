-- ===== src/Tests.antt =====
-- Runs of the operator in a small cluster.
mod World
mod Keys
mod Opened
mod Passes
mod Shares
mod Joined
mod Records
mod Start
mod Store
mod Histories
mod Connections
mod Addresses
mod Admission
