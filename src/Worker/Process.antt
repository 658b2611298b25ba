-- ===== src/Worker/Process.antt =====
-- `OutboxWorker.process_outbox_event` (apps/workers/src/mip_workers/outbox_worker.py) and
-- `process_outbox_event_job` (worker.py), over a database session with its open transaction.
-- What the surroundings answer is in `World`; the log is the list of effects outside PostgreSQL.
-- Delays are natural numbers of the unit of the instants. Logging and the texts that are built for
-- the embedding and for error messages are left out.
use outlook_dictionary.Common.{
  ℕ, ◌+◌, ◌-◌, ◌*◌, ◌^◌, min, Bool, true, false, not, ◌&&◌, Option, none, some, List, [], ◌∷◌, ◌++◌,
  map, if◌then◌else◌, leb, ◌==◌,
}
use outlook_dictionary.Sql.{select}
use outlook_dictionary.Sql.Keyed.{get}
use outlook_dictionary.Text.{Text}
use outlook_dictionary.Mail.{
  Sender, canonical_sender_email, Message, MailMessageFolder, ParticipantRole, Participant,
  message_key,
}
use outlook_dictionary.Outbox.{
  pending, done, dead_letter, EventType, mail_message_mutated, unsupported, Reason, OutboxEvent,
  Events, is_open, acquire_outbox_lease, update_status_cas,
}
use outlook_dictionary.Outbox.Row.{event_of}
use outlook_dictionary.Outbox.History.{Call, run}
use outlook_dictionary.Worker.Elastic.{
  Answer, Indexing, result, permanent, retryable, unclassified, index_message, Provision, ensured,
  refused, failed, ensure_index,
}

-- The document of `_build_document`.
pub record Document : Type 0 where
  pub id : ℕ
  pub tenant_id : ℕ
  pub mail_account_id : ℕ
  pub provider_message_id : ℕ
  pub version : ℕ
  pub is_deleted : Bool
  pub subject : Option ℕ
  pub body : Option ℕ
  pub body_preview : Option ℕ
  pub sender : Option Sender
  pub sender_email : Option Text
  pub participants : List (Option Text × Text × ParticipantRole)
  pub received_date_time : Option ℕ
  pub has_attachments : Bool
  pub is_read : Bool
  pub folder_ids : List ℕ

-- `text or None`
abbrev or_none : Text → Option Text
or_none [] = none
or_none (c ∷ cs) = some (c ∷ cs)

abbrev participant_entry : Participant → Option Text × Text × ParticipantRole
participant_entry p = (p.name, p.email, p.role)

-- `_build_document`
unfoldable pub build_document : Message → List Participant → List MailMessageFolder → Document
build_document m participants memberships = record {
  id = m.id;
  tenant_id = m.tenant_id;
  mail_account_id = m.mail_account_id;
  provider_message_id = m.provider_message_id;
  version = m.version;
  is_deleted = m.is_deleted;
  subject = m.subject;
  body = m.body;
  body_preview = m.body_preview;
  sender = m.sender;
  sender_email = or_none (canonical_sender_email m.sender);
  participants = map participant_entry participants;
  received_date_time = m.received_date_time;
  has_attachments = m.has_attachments;
  is_read = m.is_read;
  folder_ids = map (λ (p : MailMessageFolder). p.mail_folder_id) memberships;
}

-- `_backoff_delay`
unfoldable pub backoff_delay : (attempt base_seconds max_seconds : ℕ) → ℕ
backoff_delay attempt base_seconds max_seconds = min (base_seconds * 2 ^ (attempt - 1)) max_seconds

-- What the worker does outside PostgreSQL, oldest first: the PUT into the tenant's index, the
-- embedding job under its id `embed:{message}:{version}`, and the three counters.
pub data Effect : Type 0 where
  puts : (tenant : ℕ) → Document → (version : ℕ) → Effect
  enqueues : (message tenant version : ℕ) (job_id : ℕ × ℕ) → Effect
  counts_success : Effect
  counts_dead_letter : Effect
  counts_failure : (was_retryable : Bool) → Effect

-- The arguments of the constructor, less the session; whether there is an `arq_redis` and a provisioner.
pub record Config : Type 0 where
  pub max_attempts : ℕ
  pub base_backoff : ℕ
  pub max_backoff : ℕ
  pub has_redis : Bool
  pub has_provisioner : Bool

-- What the surroundings answer during one call: the clock at the three places that read it, the
-- HTTP answers, whether `enqueue_job` returned, and the calls that other workers commit while this
-- one waits for Elasticsearch and for Redis with no transaction open.
pub record World : Type 0 where
  pub acquired_at : ℕ
  pub scheduled_at : ℕ
  pub settled_at : ℕ
  pub probe_answer : Answer
  pub create_answer : Answer
  pub put_answer : Answer
  pub enqueue_returns : Bool
  pub during_put : List Call
  pub during_enqueue : List Call

-- The tables that the worker only reads.
pub record Tables : Type 0 where
  pub messages : List Message
  pub participants : List Participant
  pub memberships : List MailMessageFolder

-- The session: the rows that it sees, the rows that are committed, whether a transaction is open;
-- the counter `enqueue_transaction_violations`; the cache of the provisioner; the log.
pub record Session : Type 0 where
  pub events : Events
  pub durable : Events
  pub in_transaction : Bool
  pub violations : ℕ
  pub known_indices : List ℕ
  pub log : List Effect

-- `session.execute` opens a transaction by itself.
unfoldable pub execute : Events → Session → Session
execute rows s = record s { events = rows; in_transaction = true }

unfoldable pub commit : Session → Session
commit s = record s { durable = s.events; in_transaction = false }

unfoldable pub rollback : Session → Session
rollback s = record s { events = s.durable; in_transaction = false }

-- `if self.session.in_transaction(): await self.session.commit()`
unfoldable pub release : Session → Session
unfolding commit
release s = if s.in_transaction then commit s else s

abbrev record_effect : Effect → Session → Session
record_effect x s = record s { log = s.log ++ x ∷ [] }

-- Other workers commit while no transaction is open here.
unfoldable pub wait : List Call → Session → Session
wait cs s = record s { events = run cs s.durable; durable = run cs s.durable }

-- The delay of `_fail_recoverable`: the header's, if an exception is given that carries one.
unfoldable pub retry_delay : Config → ℕ → Option (Option ℕ) → ℕ
unfolding backoff_delay
retry_delay cfg attempt none = backoff_delay attempt cfg.base_backoff cfg.max_backoff
retry_delay cfg attempt (some none) = backoff_delay attempt cfg.base_backoff cfg.max_backoff
retry_delay cfg attempt (some (some seconds)) = seconds

abbrev is_given : Option (Option ℕ) → Bool
is_given none = false
is_given (some _) = true

-- A new session, and a new worker, whose provisioner knows no index yet.
abbrev pub opened : Session → Session
opened s = record s {
  events = s.durable;
  in_transaction = false;
  violations = 0;
  known_indices = [];
}

module _ (cfg : Config) (world : World) (event_id worker : ℕ) where
  -- `_dead_letter`
  unfoldable pub bury : ℕ → Reason → Session → Session × Bool
  unfolding execute commit
  bury lease reason s =
      let (rows, _) =
        update_status_cas event_id worker lease dead_letter (some reason) none world.settled_at
          s.events in
      (record_effect counts_dead_letter (commit (execute rows s)), false)

  -- `_fail_recoverable`; `exc` is the retryable exception, by its `retry_after`, if it is given.
  unfoldable pub fail_recoverable :
      OutboxEvent → ℕ → Reason → Option (Option ℕ) → Session → Session × Bool
  unfolding bury execute commit
  fail_recoverable event lease reason exc s =
      let attempt = event.attempt_count + 1 in
      let next_attempt = world.scheduled_at + retry_delay cfg attempt exc in
      let (rows, _) =
        update_status_cas event_id worker lease pending (some reason) (some next_attempt)
          world.settled_at s.events in
      if leb cfg.max_attempts attempt
      then bury lease reason s
      else (record_effect (counts_failure (is_given exc)) (commit (execute rows s)), false)

  -- `_enqueue_embedding`
  unfoldable pub enqueue_embedding : Message → Session → Session × Bool
  unfolding rollback wait
  enqueue_embedding m s =
      if s.in_transaction
      then (rollback (record s { violations = s.violations + 1 }), false)
      else if world.enqueue_returns
      then (
        record_effect (enqueues m.id m.tenant_id m.version (m.id, m.version))
            (wait world.during_enqueue s),
        true,
      )
      else (wait world.during_enqueue s, false)

  -- The end of `process_outbox_event`: the transition to DONE, and its commit.
  unfoldable pub finish : ℕ → Session → Session × Bool
  unfolding execute commit
  finish lease s =
      let (rows, cas_ok) =
        update_status_cas event_id worker lease done none none world.settled_at s.events in
      let s' = commit (execute rows s) in
      (if cas_ok then record_effect counts_success s' else s', cas_ok)

  -- The embedding is enqueued before the event is done.
  unfoldable pub embed_and_finish : OutboxEvent → ℕ → Message → Session → Session × Bool
  embed_and_finish event lease m s =
      let (s', enqueued) = enqueue_embedding m s in
      if cfg.has_redis && not m.is_deleted
      then (if enqueued
          then finish lease s'
          else fail_recoverable event lease Reason.enqueue_failed none s')
      else finish lease s

  -- What follows `index_message`, by how it ended.
  unfoldable pub after_indexing : OutboxEvent → ℕ → Message → Indexing → Session → Session × Bool
  after_indexing event lease m (result success _ status) s =
      if success
      then embed_and_finish event lease m s
      else fail_recoverable event lease (Reason.index_non_success status) none s
  after_indexing event lease m permanent s = bury lease Reason.index_permanent s
  after_indexing event lease m (retryable retry_after) s =
      fail_recoverable event lease Reason.index_retryable (some retry_after) s
  after_indexing event lease m unclassified s =
      fail_recoverable event lease Reason.index_unclassified none s

  -- The commit that releases the connection, and the PUT of the document.
  unfoldable pub after_put : OutboxEvent → Document → Session → Session
  unfolding release wait
  after_put event document s =
      record_effect (puts event.tenant_id document event.aggregate_version)
        (wait world.during_put (release s))

  unfoldable pub project : OutboxEvent → ℕ → Message → Document → Session → Session × Bool
  project event lease m document s =
      after_indexing event lease m (index_message world.put_answer) (after_put event document s)

  -- The index is provisioned first, where there is a provisioner.
  unfoldable pub after_provision :
      OutboxEvent → ℕ → Message → Document → Provision → Session → Session × Bool
  after_provision event lease m document ensured s = project event lease m document s
  after_provision event lease m document (refused true) s =
      fail_recoverable event lease Reason.provisioning_retryable none s
  after_provision event lease m document (refused false) s = bury lease Reason.provisioning_failed s
  after_provision event lease m document failed s = bury lease Reason.provisioning_failed s

  unfoldable pub provision : OutboxEvent → ℕ → Message → Document → Session → Session × Bool
  provision event lease m document s =
      let (outcome, known) =
        ensure_index m.tenant_id world.probe_answer world.create_answer s.known_indices in
      if cfg.has_provisioner
      then after_provision event lease m document outcome (record s { known_indices = known })
      else project event lease m document s

  -- From the message on: it must exist, and belong to the tenant of the event.
  unfoldable pub route_message :
      Tables → OutboxEvent → ℕ → Option Message → Session → Session × Bool
  route_message tables event lease none s =
      bury lease (Reason.message_not_found event.aggregate_id) s
  route_message tables event lease (some m) s =
      let participants =
        select (λ (p : Participant). p.mail_message_id == m.id) tables.participants in
      let memberships =
        select (λ (p : MailMessageFolder). p.mail_message_id == m.id) tables.memberships in
      if m.tenant_id == event.tenant_id
      then provision event lease m (build_document m participants memberships) s
      else bury lease (Reason.tenant_mismatch m.tenant_id event.tenant_id) s

  unfoldable pub route_type : Tables → OutboxEvent → ℕ → EventType → Session → Session × Bool
  route_type tables event lease mail_message_mutated s =
      route_message tables event lease (get message_key event.aggregate_id tables.messages) s
  route_type tables event lease (unsupported t) s =
      bury lease (Reason.unsupported_event_type (unsupported t)) s

  -- From the lease on: the event is read again, and a final one is left alone.
  unfoldable pub claimed : Tables → ℕ → Option OutboxEvent → Session → Session × Bool
  claimed tables lease none s = (s, false)
  claimed tables lease (some event) s =
      if is_open event.status then route_type tables event lease event.event_type s else (s, false)

  abbrev pub leased : Tables → Option ℕ → Session → Session × Bool
  leased tables none s = (s, false)
  leased tables (some lease) s = claimed tables lease (event_of event_id s.events) s

  -- `process_outbox_event`
  unfoldable pub process_outbox_event : Tables → (lease_duration : ℕ) → Session → Session × Bool
  process_outbox_event tables duration s =
      let (rows, lease) =
        acquire_outbox_lease event_id worker world.acquired_at duration s.events in
      leased tables lease (execute rows s)

  -- `process_outbox_event_job`: in a new session, which is closed at the end, so that what is not
  -- committed is rolled back.
  unfoldable pub process_outbox_event_job : Tables → ℕ → Session → Session × Bool
  process_outbox_event_job tables duration s =
      let (s', finished) = process_outbox_event tables duration (opened s) in
      (rollback s', finished)
