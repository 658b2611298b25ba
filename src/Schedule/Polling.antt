-- ===== src/Schedule/Polling.antt =====
-- `discover_outbox_events` and `outbox_polling_cron`.
use outlook_dictionary.Common.{
  ℕ, zero, suc, ◌+◌, Bool, true, false, ◌&&◌, ◌||◌, Option, none, some, List, [], ◌∷◌, map,
  if◌then◌else◌, ◌==◌, leb, is_none, before,
}
use outlook_dictionary.Sql.{select, first}
use outlook_dictionary.Outbox.{Status, pending, in_flight, OutboxEvent, Events}
use outlook_dictionary.Schedule.{JobQueue}

-- `status IN ('PENDING', 'IN_FLIGHT')`
abbrev pub is_unfinished : Status → Bool
is_unfinished pending = true
is_unfinished in_flight = true
is_unfinished _ = false

-- The WHERE test of the discovery.
unfoldable pub is_discoverable : ℕ → OutboxEvent → Bool
is_discoverable now e =
    is_unfinished e.status
    && (leb e.next_attempt_at now && (is_none e.locked_by || before e.locked_until now))

-- LIMIT
unfoldable pub take_rows {ℓ} : {A : Type ℓ} → ℕ → List A → List A
take_rows zero rows = []
take_rows (suc n) [] = []
take_rows (suc n) (r ∷ rows) = r ∷ take_rows n rows

-- `discover_outbox_events`
unfoldable pub discover_outbox_events : (now limit : ℕ) → Events → List ℕ
discover_outbox_events now limit events =
    map (λ e. e.id) (take_rows limit (select (is_discoverable now) events))

-- `lease_versions.get(event_id)`
unfoldable pub lease_version_of : ℕ → Events → Option ℕ
lease_version_of id events = elim (first (λ e. e.id == id) events) [
  | none ↦ none
  | some e ↦ some e.lease_version
]

-- `outbox_job_id`
abbrev pub OutboxJob : Type 0
OutboxJob = ℕ × ℕ

module _ (arq : JobQueue OutboxJob) where
  -- The loop of the poll: the queue, and how many jobs it took.
  unfoldable pub enqueue_all : Events → List ℕ → arq.Queue → arq.Queue × ℕ
  enqueue_all events [] q = (q, 0)
  enqueue_all events (id ∷ ids) q = elim (lease_version_of id events) [
    | none ↦ enqueue_all events ids q
    | some v ↦
        let (q', taken) = arq.enqueue_job q (id, v) in
        let (q'', n) = enqueue_all events ids q' in (q'', (if taken then n + 1 else n))
  ]

  -- `outbox_polling_cron`, with a queue
  unfoldable pub outbox_polling_cron : (now limit : ℕ) → Events → arq.Queue → arq.Queue × ℕ
  unfolding enqueue_all
  outbox_polling_cron now limit events q =
      enqueue_all events (discover_outbox_events now limit events) q
