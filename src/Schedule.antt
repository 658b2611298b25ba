-- ===== src/Schedule.antt =====
-- The jobs that the worker schedules (apps/workers/src/mip_workers/worker.py): the queue as an
-- interface, and the children for the outbox poll, the discovery of folders and the sync job.
pub mod Polling
pub mod Ticks
pub mod Discovery
pub mod Due
pub mod Job
use outlook_dictionary.Common.{ℕ, ◌≡◌, Bool, true, not}

-- ARQ: `enqueue_job` with a job id puts the job into the queue unless the queue holds it, and says
-- whether it did; nothing that is held is lost by it.
pub record JobQueue (Job : Type 0) : Type 1 where
  pub Queue : Type 0
  pub holds : Queue → Job → Bool
  pub enqueue_job : Queue → Job → Queue × Bool
  pub reports : (q : Queue) (j : Job) → (enqueue_job q j).1 ≡ not (holds q j)
  pub holds_job : (q : Queue) (j : Job) → holds (enqueue_job q j).0 j ≡ true
  pub keeps : (q : Queue) (j k : Job) → holds q k ≡ true → holds (enqueue_job q j).0 k ≡ true
