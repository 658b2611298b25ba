-- ===== src/Worker/Steps.antt =====
-- The steps of the worker one by one: where each leads, and when each can still return `True`.
use outlook_dictionary.Common.{
  ℕ, ◌≡◌, refl, inl, inr, Bool, true, false, not, ◌&&◌, Option, none, some, [], ◌∷◌, ◌++◌, arith,
  if◌then◌else◌, ◌==◌, Bool-cases,
}
use outlook_dictionary.Sql.{select}
use outlook_dictionary.Mail.{Message, Participant, MailMessageFolder}
use outlook_dictionary.Outbox.{Reason, OutboxEvent}
use outlook_dictionary.Worker.Elastic.{
  Indexing, result, permanent, retryable, unclassified, Provision, ensured, refused, failed,
  ensure_index,
}
use outlook_dictionary.Worker.Process.{
  Config, World, Tables, Session, Document, enqueues, build_document, wait, bury, fail_recoverable,
  enqueue_embedding, finish, embed_and_finish, after_indexing, project, after_provision, provision,
}

-- The document of a message, from the tables.
abbrev pub document_of : Tables → Message → Document
document_of t m =
    build_document m (select (λ (p : Participant). p.mail_message_id == m.id) t.participants)
      (select (λ (p : MailMessageFolder). p.mail_message_id == m.id) t.memberships)

abbrev pub needs_embedding : Config → Message → Bool
needs_embedding cfg m = cfg.has_redis && not m.is_deleted

abbrev pub is_success : Indexing → Bool
is_success (result success _ _) = success
is_success permanent = false
is_success (retryable _) = false
is_success unclassified = false

abbrev pub is_ensured : Provision → Bool
is_ensured ensured = true
is_ensured (refused _) = false
is_ensured failed = false

module _ (cfg : Config) (world : World) (event_id worker : ℕ) where
  -- The session after the enqueue, where there is one, and it succeeds.
  abbrev pub sent : Message → Session → Session
  sent m s =
      if needs_embedding cfg m
      then (record (wait world.during_enqueue s) {
        log =
            (wait world.during_enqueue s).log
            ++ enqueues m.id m.tenant_id m.version (m.id, m.version) ∷ [];
      })
      else s

  -- The session after the index was provisioned, where there is a provisioner.
  abbrev pub prepared : Message → Session → Session
  prepared m s =
      if cfg.has_provisioner
      then (record s {
        known_indices =
            (ensure_index m.tenant_id world.probe_answer world.create_answer s.known_indices).1;
      })
      else s

  abbrev pub is_prepared : Message → Session → Bool
  is_prepared m s =
      if cfg.has_provisioner
      then is_ensured
          (ensure_index m.tenant_id world.probe_answer world.create_answer s.known_indices).0
      else true

  pub bury-false :
      (lease : ℕ) (reason : Reason) (s : Session)
      → (bury cfg world event_id worker lease reason s).1 ≡ false
  unfolding bury
  bury-false lease reason s = refl

  pub fail_false :
      (e : OutboxEvent) (lease : ℕ) (reason : Reason) (exc : Option (Option ℕ)) (s : Session)
      → (fail_recoverable cfg world event_id worker e lease reason exc s).1 ≡ false
  unfolding fail_recoverable
  fail_false e lease reason exc s = ground arith

  pub embed_path :
      (e : OutboxEvent) (lease : ℕ) (m : Message) (s : Session)
      → s.in_transaction ≡ false
      → (needs_embedding cfg m ≡ true → world.enqueue_returns ≡ true)
      → embed_and_finish cfg world event_id worker e lease m s
        ≡ finish cfg world event_id worker lease (sent m s)
  unfolding embed_and_finish enqueue_embedding
  embed_path e lease m s closed accepted = elim (Bool-cases (needs_embedding cfg m)) [
    | inl needs ↦ rw (needs, closed, accepted needs)
    | inr lacks ↦ rw lacks
  ]

  pub embed_true :
      (e : OutboxEvent) (lease : ℕ) (m : Message) (s : Session)
      → s.in_transaction ≡ false
      → (embed_and_finish cfg world event_id worker e lease m s).1 ≡ true
      → needs_embedding cfg m ≡ true
      → world.enqueue_returns ≡ true
  unfolding embed_and_finish enqueue_embedding
  embed_true e lease m s closed ok needs =
      ground (arith, fail_false e lease Reason.enqueue_failed none (wait world.during_enqueue s))

  pub provision_path :
      (e : OutboxEvent) (lease : ℕ) (m : Message) (d : Document) (s : Session)
      → is_prepared m s ≡ true
      → provision cfg world event_id worker e lease m d s
        ≡ project cfg world event_id worker e lease m d (prepared m s)
  unfolding provision after_provision
  provision_path e lease m d s h = ground arith

  pub provision-true :
      (e : OutboxEvent) (lease : ℕ) (m : Message) (d : Document) (s : Session)
      → (provision cfg world event_id worker e lease m d s).1 ≡ true
      → is_prepared m s ≡ true
  unfolding provision after_provision bury
  provision-true e lease m d s ok =
      let known =
        (ensure_index m.tenant_id world.probe_answer world.create_answer s.known_indices).1 in
      ground (
        arith,
        fail_false e lease Reason.provisioning_retryable none (record s { known_indices = known }),
      )

  pub after_indexing-true :
      (e : OutboxEvent) (lease : ℕ) (m : Message) (i : Indexing) (s : Session)
      → (after_indexing cfg world event_id worker e lease m i s).1 ≡ true
      → (is_success i ≡ true)
        × (after_indexing cfg world event_id worker e lease m i s
            ≡ embed_and_finish cfg world event_id worker e lease m s)
  unfolding after_indexing bury
  after_indexing-true e lease m (result true c status) s ok = (refl, refl)
  after_indexing-true e lease m (result false c status) s ok =
      cc (fail_false e lease (Reason.index_non_success status) none s)
  after_indexing-true e lease m permanent s ok = cc
  after_indexing-true e lease m (retryable r) s ok =
      cc (fail_false e lease Reason.index_retryable (some r) s)
  after_indexing-true e lease m unclassified s ok =
      cc (fail_false e lease Reason.index_unclassified none s)
