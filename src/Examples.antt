-- ===== src/Examples.antt =====
-- Concrete runs of the components, and each theorem with hypotheses at one of them.
mod Outboxes
mod Workers
mod Syncs
mod Auths
mod Leases
mod Folders
mod Credentials
mod Accesses
mod Graphs
mod Schedules
mod Logins
mod Backfills
mod Searches
