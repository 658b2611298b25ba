-- ===== src/Outbox.antt =====
-- The outbox table and `OutboxEventRepository` (apps/api/app/repositories/mail.py), over the
-- columns of `OutboxEvent` (packages/models/src/mip_models/mail.py).
-- Identifiers are numbers, and so are instants and durations, in one unit.
pub mod Row
pub mod History
pub mod Lifecycle
pub mod Lease
use outlook_dictionary.Common.{
  ℕ, suc, ◌+◌, Bool, true, false, not, ◌&&◌, ◌||◌, Option, none, some, List, [], ◌∷◌, ◌++◌,
  if◌then◌else◌, ltb, leb, ◌==◌, is_none, is_some, holds, before,
}
use outlook_dictionary.Sql.{first, update_where, rowcount}
use outlook_dictionary.Sql.Keyed.{at, map_some}

-- `OutboxEventStatus`
pub data Status : Type 0 where
  pending in_flight done dead_letter : Status

-- `event_type`: the one type that the consumer projects, or any other text.
pub data EventType : Type 0 where
  mail_message_mutated : EventType
  unsupported : ℕ → EventType

-- The texts that the worker writes into `last_error`, by the place that writes them.
pub data Reason : Type 0 where
  unsupported_event_type : EventType → Reason
  message_not_found : ℕ → Reason
  tenant_mismatch : ℕ → ℕ → Reason
  provisioning_retryable provisioning_failed : Reason
  index_permanent index_retryable index_unclassified : Reason
  index_non_success : ℕ → Reason
  enqueue_failed : Reason

-- `payload["action"]`
pub data Action : Type 0 where
  created updated folder_removed stale_membership_reconciled : Action

-- The columns of `OutboxEvent`. The payload repeats the other columns, except for the action.
-- The idempotency key `{aggregate_id}::{version}::MAIL_MESSAGE_MUTATED` is kept as its two parts.
pub record OutboxEvent : Type 0 where
  pub id : ℕ
  pub tenant_id : ℕ
  pub aggregate_id : ℕ
  pub aggregate_version : ℕ
  pub event_type : EventType
  pub idempotency_key : ℕ × ℕ
  pub payload_action : Action
  pub status : Status
  pub locked_by : Option ℕ
  pub locked_until : Option ℕ
  pub lease_version : ℕ
  pub attempt_count : ℕ
  pub last_error : Option Reason
  pub next_attempt_at : ℕ
  pub created_at : ℕ
  pub completed_at : Option ℕ

abbrev pub Events : Type 0
Events = List OutboxEvent

-- status IN ('PENDING', 'IN_FLIGHT')
abbrev pub is_open : Status → Bool
is_open pending = true
is_open in_flight = true
is_open done = false
is_open dead_letter = false

abbrev pub is_done : Status → Bool
is_done done = true
is_done pending = false
is_done in_flight = false
is_done dead_letter = false

-- The WHERE test of `acquire_outbox_lease`, less the id.
unfoldable pub eligible : ℕ → OutboxEvent → Bool
eligible now e =
    is_open e.status
    && leb e.next_attempt_at now
    && (is_none e.locked_by || before e.locked_until now)

-- The SET part of `acquire_outbox_lease`.
unfoldable pub claim : ℕ → ℕ → ℕ → OutboxEvent → OutboxEvent
claim worker now duration e = record e {
  locked_by = some worker;
  locked_until = some (now + duration);
  lease_version = e.lease_version + 1;
  status = in_flight;
}

-- `acquire_outbox_lease`: the new table and the new lease version, if the lease was acquired.
unfoldable pub acquire_outbox_lease : ℕ → ℕ → ℕ → ℕ → Events → Events × Option ℕ
acquire_outbox_lease event_id worker now duration rows =
    let test = at (λ (e : OutboxEvent). e.id) event_id (eligible now) in
    (
      update_where test (claim worker now duration) rows,
      map_some (λ e. (claim worker now duration e).lease_version) (first test rows),
    )

-- The WHERE test of `update_status_cas`, less the id.
unfoldable pub fenced : ℕ → ℕ → OutboxEvent → Bool
fenced worker lease_version e = holds e.locked_by worker && e.lease_version == lease_version

-- The SET part of `update_status_cas`; `now` is the completion time.
unfoldable pub settle : ℕ → Status → Option Reason → Option ℕ → OutboxEvent → OutboxEvent
settle now new_status last_error next_attempt_at e = record e {
  status = new_status;
  locked_by = none;
  locked_until = none;
  last_error = elim last_error [ none ↦ e.last_error | some r ↦ some r ];
  attempt_count = elim last_error [ none ↦ e.attempt_count | some _ ↦ e.attempt_count + 1 ];
  next_attempt_at = elim next_attempt_at [ none ↦ e.next_attempt_at | some t ↦ t ];
  completed_at = if is_done new_status then some now else e.completed_at;
}

-- `update_status_cas`: the new table, and whether one row was hit.
unfoldable pub update_status_cas :
    ℕ → ℕ → ℕ → Status → Option Reason → Option ℕ → ℕ → Events → Events × Bool
update_status_cas event_id worker lease_version new_status last_error next_attempt_at now rows =
    let test = at (λ (e : OutboxEvent). e.id) event_id (fenced worker lease_version) in
    (
      update_where test (settle now new_status last_error next_attempt_at) rows,
      rowcount test rows == 1,
    )

-- The test on the unique constraint of the idempotency key.
abbrev pub same_key : ℕ → ℕ → OutboxEvent → Bool
same_key aggregate version e = e.idempotency_key.0 == aggregate && e.idempotency_key.1 == version

-- The row that `create_event` adds, with the defaults of the columns that it leaves out.
abbrev pub new_event : ℕ → ℕ → ℕ → ℕ → Action → ℕ → OutboxEvent
new_event id tenant aggregate version action now = record {
  id = id;
  tenant_id = tenant;
  aggregate_id = aggregate;
  aggregate_version = version;
  event_type = mail_message_mutated;
  idempotency_key = (aggregate, version);
  payload_action = action;
  status = pending;
  locked_by = none;
  locked_until = none;
  lease_version = 1;
  attempt_count = 0;
  last_error = none;
  next_attempt_at = now;
  created_at = now;
  completed_at = none;
}

-- `create_event`: `none` when the flush raises on a key that is there already.
unfoldable pub create_event : ℕ → ℕ → ℕ → ℕ → Action → ℕ → Events → Option Events
create_event id tenant aggregate version action now rows =
    if is_some (first (same_key aggregate version) rows)
    then none
    else some (rows ++ (new_event id tenant aggregate version action now ∷ []))
