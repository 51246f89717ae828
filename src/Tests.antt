-- ===== src/Tests.antt =====
-- The theorems at concrete inputs.
mod Storage
mod Locks
mod Clients
mod Sessions
mod Snapshots
mod Schedule
mod Reads
mod Commits
mod Transactions
mod ClientDatabases
