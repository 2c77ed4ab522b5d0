-- ===== src/Examples.antt =====
-- Concrete inputs for the theorems, and tests of the definitions they are about.
mod Stances
mod Policies
mod Reports
mod Walks
mod Comments
mod Surfaces
mod Snapshots
mod Rollbacks
mod Locks
mod Collection
mod Streams
mod Cleaning
mod Plans
mod Selections
mod Runs
mod Logs
