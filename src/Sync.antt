-- ===== src/Sync.antt =====
-- The page mutations of `SyncOrchestrator` (apps/api/app/services/sync_orchestrator.py) on the
-- mail tables, with the repository calls that they make (apps/api/app/repositories/mail.py), and the
-- lease on a synchronisation.
pub mod Provider
pub mod Participants
pub mod Process
pub mod Invariant
pub mod Coverage
pub mod Handlers
pub mod Stale
pub mod Repeat
pub mod Again
pub mod Idempotence
pub mod Lease
pub mod Takeover
