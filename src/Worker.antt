-- ===== src/Worker.antt =====
-- The outbox worker: `OutboxWorker` (apps/workers/src/mip_workers/outbox_worker.py), its job
-- (worker.py), and the two Elasticsearch clients that it calls (es_adapter.py, es_provisioning.py).
pub mod Elastic
pub mod Process
pub mod Transactions
pub mod Steps
pub mod Verdict
pub mod Path
pub mod Outcome
pub mod Job
pub mod Fencing
pub mod Refinement
