-- ===== src/Worker/Transactions.antt =====
-- Transactions of the worker: none is open while Redis is awaited, and a job leaves none behind.
use outlook_dictionary.Common.{
  ℕ, ◌≡◌, refl, ◌∙◌, Bool, true, false, Option, none, some, inl, inr, arith, ◌==◌, Bool-cases,
}
use outlook_dictionary.Sql.Keyed.{get}
use outlook_dictionary.Mail.{Message, message_key}
use outlook_dictionary.Outbox.{
  EventType, mail_message_mutated, unsupported, Reason, OutboxEvent, Events, is_open,
  acquire_outbox_lease,
}
use outlook_dictionary.Outbox.Row.{event_of}
use outlook_dictionary.Worker.Elastic.{
  Indexing, result, permanent, retryable, unclassified, index_message, Provision, ensured, refused,
  failed, ensure_index,
}
use outlook_dictionary.Worker.Process.{
  Config, World, Tables, Session, Document, execute, bury, fail_recoverable, enqueue_embedding,
  finish, embed_and_finish, after_indexing, after_put, project, after_provision, provision,
  route_message, route_type, claimed, leased, process_outbox_event,
}

-- The worker has met no open transaction at the enqueue.
abbrev pub NoViolation : Session → Session × Bool → Type 0
NoViolation s (s', _) = s'.violations ≡ s.violations

module _ (cfg : Config) (world : World) (event_id worker : ℕ) where
  bury-NoViolation :
      (lease : ℕ) (reason : Reason) (s : Session)
      → NoViolation s (bury cfg world event_id worker lease reason s)
  unfolding bury
  bury-NoViolation lease reason s = refl

  fail-NoViolation :
      (e : OutboxEvent) (lease : ℕ) (reason : Reason) (exc : Option (Option ℕ)) (s : Session)
      → NoViolation s (fail_recoverable cfg world event_id worker e lease reason exc s)
  unfolding fail_recoverable
  fail-NoViolation e lease reason exc s = ground arith

  embed-NoViolation :
      (e : OutboxEvent) (lease : ℕ) (m : Message) (s : Session)
      → s.in_transaction ≡ false
      → NoViolation s (embed_and_finish cfg world event_id worker e lease m s)
  unfolding embed_and_finish enqueue_embedding finish
  embed-NoViolation e lease m s closed = ground (
    arith,
    fail-NoViolation e lease Reason.enqueue_failed none
        (enqueue_embedding cfg world event_id worker m s).0,
  )

  after_indexing-NoViolation :
      (e : OutboxEvent) (lease : ℕ) (m : Message) (i : Indexing) (s : Session)
      → s.in_transaction ≡ false
      → NoViolation s (after_indexing cfg world event_id worker e lease m i s)
  unfolding after_indexing
  after_indexing-NoViolation e lease m (result success c status) s closed = ground (
    arith,
    embed-NoViolation e lease m s closed,
    fail-NoViolation e lease (Reason.index_non_success status) none s,
  )
  after_indexing-NoViolation e lease m permanent s closed =
      bury-NoViolation lease Reason.index_permanent s
  after_indexing-NoViolation e lease m (retryable r) s closed =
      fail-NoViolation e lease Reason.index_retryable (some r) s
  after_indexing-NoViolation e lease m unclassified s closed =
      fail-NoViolation e lease Reason.index_unclassified none s

  after_put-closed :
      (e : OutboxEvent) (d : Document) (s : Session)
      → (after_put cfg world event_id worker e d s).in_transaction ≡ false
  unfolding after_put
  after_put-closed e d s = ground arith

  after_put-violations :
      (e : OutboxEvent) (d : Document) (s : Session)
      → (after_put cfg world event_id worker e d s).violations ≡ s.violations
  unfolding after_put
  after_put-violations e d s = ground arith

  project-NoViolation :
      (e : OutboxEvent) (lease : ℕ) (m : Message) (d : Document) (s : Session)
      → NoViolation s (project cfg world event_id worker e lease m d s)
  unfolding project
  project-NoViolation e lease m d s =
      after_indexing-NoViolation e lease m (index_message world.put_answer)
        (after_put cfg world event_id worker e d s) (after_put-closed e d s)
      ∙ after_put-violations e d s

  after_provision-NoViolation :
      (e : OutboxEvent) (lease : ℕ) (m : Message) (d : Document) (p : Provision) (s : Session)
      → NoViolation s (after_provision cfg world event_id worker e lease m d p s)
  unfolding after_provision
  after_provision-NoViolation e lease m d ensured s = project-NoViolation e lease m d s
  after_provision-NoViolation e lease m d (refused true) s =
      fail-NoViolation e lease Reason.provisioning_retryable none s
  after_provision-NoViolation e lease m d (refused false) s =
      bury-NoViolation lease Reason.provisioning_failed s
  after_provision-NoViolation e lease m d failed s =
      bury-NoViolation lease Reason.provisioning_failed s

  provision-NoViolation :
      (e : OutboxEvent) (lease : ℕ) (m : Message) (d : Document) (s : Session)
      → NoViolation s (provision cfg world event_id worker e lease m d s)
  unfolding provision
  provision-NoViolation e lease m d s =
      let (outcome, known) =
        ensure_index m.tenant_id world.probe_answer world.create_answer s.known_indices in
      ground (
        arith,
        after_provision-NoViolation e lease m d outcome (record s { known_indices = known }),
        project-NoViolation e lease m d s,
      )

  route_message-NoViolation :
      (t : Tables) (e : OutboxEvent) (lease : ℕ) (o : Option Message) (s : Session)
      → NoViolation s (route_message cfg world event_id worker t e lease o s)
  unfolding route_message
  route_message-NoViolation t e lease none s =
      bury-NoViolation lease (Reason.message_not_found e.aggregate_id) s
  route_message-NoViolation t e lease (some m) s = elim (Bool-cases (m.tenant_id == e.tenant_id)) [
    | inl same ↦ rw same (provision-NoViolation e lease m _ s)
    | inr differs ↦
        rw differs (bury-NoViolation lease (Reason.tenant_mismatch m.tenant_id e.tenant_id) s)
  ]

  claimed-NoViolation :
      (t : Tables) (lease : ℕ) (o : Option OutboxEvent) (s : Session)
      → NoViolation s (claimed cfg world event_id worker t lease o s)
  unfolding claimed route_type
  claimed-NoViolation t lease none s = refl
  claimed-NoViolation t lease (some e) s = elim (Bool-cases (is_open e.status)) [
    | inl opened ↦ rw opened (route_type-NoViolation e.event_type)
    | inr final ↦ rw final refl
  ]
    where
      route_type-NoViolation :
          (y : EventType) → NoViolation s (route_type cfg world event_id worker t e lease y s)
      route_type-NoViolation mail_message_mutated =
          route_message-NoViolation t e lease (get message_key e.aggregate_id t.messages) s
      route_type-NoViolation (unsupported u) =
          bury-NoViolation lease (Reason.unsupported_event_type (unsupported u)) s

  -- Whatever the surroundings answer, and whatever session the call starts in, the worker never
  -- awaits Redis with a transaction open: the counter of such violations does not move.
  pub process-NoViolation :
      (t : Tables) (duration : ℕ) (s : Session)
      → NoViolation s (process_outbox_event cfg world event_id worker t duration s)
  unfolding process_outbox_event execute
  process-NoViolation t duration s =
      go (acquire_outbox_lease event_id worker world.acquired_at duration s.events).1
    where
      rows : Events
      rows = (acquire_outbox_lease event_id worker world.acquired_at duration s.events).0

      go :
          (lease : Option ℕ)
          → NoViolation s (leased cfg world event_id worker t lease (execute rows s))
      go none = refl
      go (some lease) = claimed-NoViolation t lease (event_of event_id rows) (execute rows s)
