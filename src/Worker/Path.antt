-- ===== src/Worker/Path.antt =====
-- The path of an event through the worker to the answer of Elasticsearch, and what the
-- result `True` says of it.
use outlook_dictionary.Common.{
  ℕ, ◌≡◌, refl, ◌∙◌, sym, ap, inl, inr, true, Bool, not, ◌||◌, ◌&&◌, List, false, Option, none,
  some, arith, ◌==◌, Bool-cases,
}
use outlook_dictionary.Text.{codes, contains}
use outlook_dictionary.Sql.Keyed.{get}
use outlook_dictionary.Mail.{Message, message_key}
use outlook_dictionary.Outbox.{
  EventType, mail_message_mutated, unsupported, OutboxEvent, Events, is_open, acquire_outbox_lease,
}
use outlook_dictionary.Outbox.Row.{event_of}
use outlook_dictionary.Worker.Elastic.{
  Answer, response, network_error, other_exception, index_message, ensure_index, create_index,
  member,
}
use outlook_dictionary.Worker.Process.{
  Config, World, Tables, Session, execute, bury, after_indexing, after_put, project, provision,
  route_message, route_type, claimed, leased, process_outbox_event,
}
use outlook_dictionary.Worker.Steps.{
  document_of, is_prepared, is_ensured, prepared, provision_path, provision-true,
}

-- The provisioner knows, finds or creates the index: the tenant is known; HEAD answers 200; or HEAD
-- answers otherwise, and PUT answers 200 or 201, or 400 as the index exists.
abbrev pub is_there : Answer → Bool
is_there (response status _ _) = status == 200
is_there network_error = false
is_there other_exception = false

abbrev pub is_answered : Answer → Bool
is_answered (response _ _ _) = true
is_answered network_error = false
is_answered other_exception = false

abbrev pub is_created : Answer → Bool
is_created (response status body _) =
    status == 200
    || status == 201
    || status == 400 && contains (codes "resource_already_exists_exception") body
is_created network_error = false
is_created other_exception = false

abbrev pub has_index : Config → World → Message → Session → Bool
has_index cfg world m s =
    not cfg.has_provisioner
    || member m.tenant_id s.known_indices
    || is_there world.probe_answer
    || is_answered world.probe_answer && is_created world.create_answer

ensured_same :
    (tenant : ℕ) (probe put : Answer) (known : List ℕ)
    → is_ensured (ensure_index tenant probe put known).0
      ≡ (member tenant known || is_there probe || is_answered probe && is_created put)
unfolding ensure_index create_index
ensured_same tenant (response status b r) (response put body p) known = ground arith
ensured_same tenant (response status b r) network_error known = ground arith
ensured_same tenant (response status b r) other_exception known = ground arith
ensured_same tenant network_error put known = ground arith
ensured_same tenant other_exception put known = ground arith

module _ (cfg : Config) (world : World) (event_id worker : ℕ) where
  -- What the worker must find before it can project an event: the lease, the event, its message,
  -- and one tenant for both; and the index of the tenant.
  pub record Ready (t : Tables) (duration : ℕ) (s : Session) (lease : ℕ) (e : OutboxEvent)
      (m : Message) : Type 0 where
    pub granted :
        (acquire_outbox_lease event_id worker world.acquired_at duration s.events).1 ≡ some lease
    pub found :
        event_of event_id
          (acquire_outbox_lease event_id worker world.acquired_at duration s.events).0
        ≡ some e
    pub opened : is_open e.status ≡ true
    pub supported : e.event_type ≡ mail_message_mutated
    pub message : get message_key e.aggregate_id t.messages ≡ some m
    pub tenant : (m.tenant_id == e.tenant_id) ≡ true
    pub index : has_index cfg world m s ≡ true

  prepared_same :
      (m : Message) (s : Session)
      → is_prepared cfg world event_id worker m s ≡ has_index cfg world m s
  prepared_same m s =
      let ensured =
        ensured_same m.tenant_id world.probe_answer world.create_answer s.known_indices in
      elim (Bool-cases cfg.has_provisioner) [
        | inl has ↦ ground (arith, ensured)
        | inr lacks ↦ ground (arith, ensured)
      ]

  -- The session when Elasticsearch has answered: the lease is committed, others may have acted.
  abbrev pub put_session : Tables → ℕ → Session → OutboxEvent → Message → Session
  put_session t duration s e m = after_put cfg world event_id worker e (document_of t m) (
      prepared cfg world event_id worker m
        (execute (acquire_outbox_lease event_id worker world.acquired_at duration s.events).0 s))

  claimed_open :
      (t : Tables) (lease : ℕ) (e : OutboxEvent) (s : Session)
      → is_open e.status ≡ true
      → claimed cfg world event_id worker t lease (some e) s
        ≡ route_type cfg world event_id worker t e lease e.event_type s
  unfolding claimed
  claimed_open t lease e s opened = ground arith

  route_message_same :
      (t : Tables) (lease : ℕ) (e : OutboxEvent) (m : Message) (s : Session)
      → (m.tenant_id == e.tenant_id) ≡ true
      → route_message cfg world event_id worker t e lease (some m) s
        ≡ provision cfg world event_id worker e lease m (document_of t m) s
  unfolding route_message
  route_message_same t lease e m s same = rw same

  -- An event that is ready is put into the index of its tenant.
  pub process_path :
      (t : Tables) (duration : ℕ) (s : Session) (lease : ℕ) (e : OutboxEvent) (m : Message)
      → Ready t duration s lease e m
      → process_outbox_event cfg world event_id worker t duration s
        ≡ after_indexing cfg world event_id worker e lease m
            (index_message world.put_answer)
            (put_session t duration s e m)
  unfolding process_outbox_event route_type project execute
  process_path t duration s lease e m r =
      let rows = (acquire_outbox_lease event_id worker world.acquired_at duration s.events).0 in
      let s' = execute rows s in
      ap (λ o. leased cfg world event_id worker t o s') r.granted
      ∙ ap (λ o. claimed cfg world event_id worker t lease o s') r.found
      ∙ claimed_open t lease e s' r.opened
      ∙ ap (λ y. route_type cfg world event_id worker t e lease y s') r.supported
      ∙ ap (λ o. route_message cfg world event_id worker t e lease o s') r.message
      ∙ route_message_same t lease e m s' r.tenant
      ∙ provision_path cfg world event_id worker e lease m (document_of t m) s'
          (prepared_same m s' ∙ r.index)

  route_message-true :
      (t : Tables) (lease : ℕ) (e : OutboxEvent) (o : Option Message) (s : Session)
      → (route_message cfg world event_id worker t e lease o s).1 ≡ true
      → (m : Message) × (o ≡ some m)
        × ((m.tenant_id == e.tenant_id) ≡ true)
        × (is_prepared cfg world event_id worker m s ≡ true)
  unfolding route_message bury
  route_message-true t lease e none s ok = cc
  route_message-true t lease e (some m) s ok = elim (Bool-cases (m.tenant_id == e.tenant_id)) [
    | inl same ↦ (
      m,
      refl,
      same,
      provision-true cfg world event_id worker e lease m (document_of t m) s
          (sym (ap (λ r. r.1) (route_message_same t lease e m s same)) ∙ ok),
    )
    | inr differs ↦ ground arith
  ]

  route_type-true :
      (t : Tables) (lease : ℕ) (e : OutboxEvent) (y : EventType) (s : Session)
      → (route_type cfg world event_id worker t e lease y s).1 ≡ true
      → (y ≡ mail_message_mutated)
        × ((route_message cfg world event_id worker t e lease
              (get message_key e.aggregate_id t.messages)
              s).1
            ≡ true)
  unfolding route_type bury
  route_type-true t lease e mail_message_mutated s ok = (refl, ok)
  route_type-true t lease e (unsupported u) s ok = cc

  claimed_true :
      (t : Tables) (lease : ℕ) (o : Option OutboxEvent) (s : Session)
      → (claimed cfg world event_id worker t lease o s).1 ≡ true
      → (e : OutboxEvent) × (o ≡ some e)
        × (is_open e.status ≡ true)
        × ((route_type cfg world event_id worker t e lease e.event_type s).1 ≡ true)
  unfolding claimed
  claimed_true t lease none s ok = cc
  claimed_true t lease (some e) s ok = (e, refl, ground arith, ground arith)

  -- The result `True` means that the event was ready.
  pub process-Ready :
      (t : Tables) (duration : ℕ) (s : Session)
      → (process_outbox_event cfg world event_id worker t duration s).1 ≡ true
      → (lease : ℕ) × (e : OutboxEvent) × (m : Message) × Ready t duration s lease e m
  unfolding process_outbox_event execute
  process-Ready t duration s ok =
      go (acquire_outbox_lease event_id worker world.acquired_at duration s.events).1 refl ok
    where
      rows : Events
      rows = (acquire_outbox_lease event_id worker world.acquired_at duration s.events).0

      go :
          (o : Option ℕ)
          → (acquire_outbox_lease event_id worker world.acquired_at duration s.events).1 ≡ o
          → (leased cfg world event_id worker t o (execute rows s)).1 ≡ true
          → (lease : ℕ) × (e : OutboxEvent) × (m : Message) × Ready t duration s lease e m
      go none granted finished = cc
      go (some lease) granted finished =
          let (e, found, opened, routed) =
            claimed_true t lease (event_of event_id rows) (execute rows s) finished in
          let (supported, delivered) =
            route_type-true t lease e e.event_type (execute rows s) routed in
          let (m, message, tenant, index) =
            route_message-true t lease e (get message_key e.aggregate_id t.messages)
              (execute rows s) delivered in
          (
            lease,
            e,
            m,
            record {
              granted = granted;
              found = found;
              opened = opened;
              supported = supported;
              message = message;
              tenant = tenant;
              index = sym (prepared_same m s) ∙ index;
            },
          )
