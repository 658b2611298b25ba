-- ===== src/Worker/Outcome.antt =====
-- The branch of the worker's code that settles an event, by the answers of Elasticsearch and Redis.
use outlook_dictionary.Common.{
  ℕ, ◌+◌, ◌≡◌, refl, ◌∙◌, sym, ap, inl, inr, Bool, true, false, not, ◌&&◌, Option, none, some, List,
  arith, if◌then◌else◌, leb, Bool-cases, All,
}
use mathlib.Core.Path.{subst, subst₂}
use outlook_dictionary.Sql.Keyed.{HasUniqueKeys}
use outlook_dictionary.Mail.{Message}
use outlook_dictionary.Outbox.{
  Status, pending, done, dead_letter, Reason, OutboxEvent, acquire_outbox_lease, fenced, claim,
  settle, update_status_cas,
}
use outlook_dictionary.Outbox.Row.{
  event_key, event_of, cas-row, cas-result, acquire-Granted, acquire-HasUniqueKeys,
}
use outlook_dictionary.Outbox.History.{Call, run, run-life, run-HasUniqueKeys}
use outlook_dictionary.Outbox.Lease.{Leased, IsRival, life_rivals}
use outlook_dictionary.Worker.Elastic.{Indexing, result, permanent, retryable, unclassified}
use outlook_dictionary.Worker.Process.{
  Config, World, Tables, Session, execute, wait, bury, retry_delay, fail_recoverable,
  enqueue_embedding, finish, embed_and_finish, after_indexing, after_put,
}
use outlook_dictionary.Worker.Steps.{needs_embedding, sent, embed_path}
use outlook_dictionary.Worker.Path.{Ready, put_session}

pub data Branch : Type 0 where
  completed : Branch
  buried : Reason → Branch
  failed : Reason → Option (Option ℕ) → Branch

-- The branch after the PUT.
abbrev pub branch : Config → World → Message → Indexing → Branch
branch cfg world m (result true _ _) =
    if needs_embedding cfg m && not world.enqueue_returns
    then failed Reason.enqueue_failed none
    else completed
branch cfg world m (result false _ status) = failed (Reason.index_non_success status) none
branch cfg world m permanent = buried Reason.index_permanent
branch cfg world m (retryable retry_after) = failed Reason.index_retryable (some retry_after)
branch cfg world m unclassified = failed Reason.index_unclassified none

abbrev pub is_completed : Branch → Bool
is_completed completed = true
is_completed (buried _) = false
is_completed (failed _ _) = false

-- The row that a branch leaves.
abbrev pub branch_row : Config → World → Branch → OutboxEvent → OutboxEvent
branch_row cfg world completed e = settle world.settled_at done none none e
branch_row cfg world (buried reason) e = settle world.settled_at dead_letter (some reason) none e
branch_row cfg world (failed reason exc) e =
    if leb cfg.max_attempts (e.attempt_count + 1)
    then settle world.settled_at dead_letter (some reason) none e
    else settle world.settled_at pending (some reason)
        (some (world.scheduled_at + retry_delay cfg (e.attempt_count + 1) exc)) e

module _ (cfg : Config) (world : World) (event_id worker : ℕ) where
  -- What holds of a session in which the worker still has its lease on the event.
  pub record Holding (lease : ℕ) (e : OutboxEvent) (s : Session) : Type 0 where
    pub keys : HasUniqueKeys event_key s.events
    pub found : event_of event_id s.events ≡ some e
    pub held : fenced worker lease e ≡ true

  -- A call has taken a branch: its row is durable, and its result is returned.
  abbrev pub Takes : Branch → OutboxEvent → Session × Bool → Type 0
  Takes v e (s, finished) =
      (event_of event_id s.durable ≡ some (branch_row cfg world v e)) × (finished ≡ is_completed v)

  cas_row :
      (lease : ℕ) (st : Status) (r : Option Reason) (n : Option ℕ) (e : OutboxEvent) (s : Session)
      → Holding lease e s
      → event_of event_id
          (update_status_cas event_id worker lease st r n world.settled_at s.events).0
        ≡ some (settle world.settled_at st r n e)
  cas_row lease st r n e s h =
      cas-row event_id worker lease st r n world.settled_at s.events ∙ rw h.found (rw h.held)

  finish-Takes :
      (lease : ℕ) (e : OutboxEvent) (s : Session)
      → Holding lease e s
      → Takes completed e (finish cfg world event_id worker lease s)
  unfolding finish
  finish-Takes lease e s h = (
    ground (arith, cas_row lease done none none e s h),
    cas-result event_id worker lease done none none world.settled_at s.events h.keys
        ∙ rw h.found (rw h.held),
  )

  bury-Takes :
      (lease : ℕ) (reason : Reason) (e : OutboxEvent) (s : Session)
      → Holding lease e s
      → Takes (buried reason) e (bury cfg world event_id worker lease reason s)
  unfolding bury
  bury-Takes lease reason e s h = (cas_row lease dead_letter (some reason) none e s h, refl)

  fail-Takes :
      (lease : ℕ) (reason : Reason) (exc : Option (Option ℕ)) (e : OutboxEvent) (s : Session)
      → Holding lease e s
      → Takes
          (failed reason exc)
          e
          (fail_recoverable cfg world event_id worker e lease reason exc s)
  unfolding fail_recoverable
  fail-Takes lease reason exc e s h =
      elim (Bool-cases (leb cfg.max_attempts (e.attempt_count + 1))) [
        | inl spent ↦ rw spent (bury-Takes lease reason e s h)
        | inr more ↦ rw more (
          cas_row lease pending (some reason)
              (some (world.scheduled_at + retry_delay cfg (e.attempt_count + 1) exc)) e s h,
          refl,
        )
      ]

  -- The session after a due enqueue still holds the lease.
  sent-Holding :
      (lease : ℕ) (m : Message) (e : OutboxEvent) (s : Session)
      → Holding lease e s
      → Holding lease e (wait world.during_enqueue s)
      → Holding lease e (sent cfg world event_id worker m s)
  sent-Holding lease m e s h h' = elim (Bool-cases (needs_embedding cfg m)) [
    | inl needs ↦ rw needs (record { keys = h'.keys; found = h'.found; held = h'.held })
    | inr lacks ↦ rw lacks h
  ]

  -- The embedding is due, and Redis refuses the job.
  pub refused_path :
      (lease : ℕ) (m : Message) (e : OutboxEvent) (s : Session)
      → s.in_transaction ≡ false
      → needs_embedding cfg m ≡ true
      → world.enqueue_returns ≡ false
      → embed_and_finish cfg world event_id worker e lease m s
        ≡ fail_recoverable cfg world event_id worker e lease Reason.enqueue_failed none
            (wait world.during_enqueue s)
  unfolding embed_and_finish enqueue_embedding
  refused_path lease m e s closed needs refused = ground arith

  embed-Takes :
      (lease : ℕ) (m : Message) (c : Bool) (status : ℕ) (e : OutboxEvent) (s : Session)
      → s.in_transaction ≡ false
      → Holding lease e s
      → Holding lease e (wait world.during_enqueue s)
      → Takes
          (branch cfg world m (result true c status))
          e
          (embed_and_finish cfg world event_id worker e lease m s)
  embed-Takes lease m c status e s closed h h' =
      elim (Bool-cases (needs_embedding cfg m && not world.enqueue_returns)) [
        | inl refused ↦
            let v : branch cfg world m (result true c status) ≡ failed Reason.enqueue_failed none =
              ground arith in
            let path = refused_path lease m e s closed (ground arith) (ground arith) in
            subst₂ (λ x r. Takes x e r) (sym v) (sym path)
              (fail-Takes lease Reason.enqueue_failed none e (wait world.during_enqueue s) h')
        | inr accepted ↦
            let v : branch cfg world m (result true c status) ≡ completed = ground arith in
            let path =
              embed_path cfg world event_id worker e lease m s closed (λ needs. ground arith) in
            subst₂ (λ x r. Takes x e r) (sym v) (sym path)
              (finish-Takes lease e (sent cfg world event_id worker m s)
                (sent-Holding lease m e s h h'))
      ]

  pub after_indexing-Takes :
      (lease : ℕ) (m : Message) (i : Indexing) (e : OutboxEvent) (s : Session)
      → s.in_transaction ≡ false
      → Holding lease e s
      → Holding lease e (wait world.during_enqueue s)
      → Takes (branch cfg world m i) e (after_indexing cfg world event_id worker e lease m i s)
  unfolding after_indexing
  after_indexing-Takes lease m (result true c status) e s closed h h' =
      embed-Takes lease m c status e s closed h h'
  after_indexing-Takes lease m (result false c status) e s closed h h' =
      fail-Takes lease (Reason.index_non_success status) none e s h
  after_indexing-Takes lease m permanent e s closed h h' =
      bury-Takes lease Reason.index_permanent e s h
  after_indexing-Takes lease m (retryable r) e s closed h h' =
      fail-Takes lease Reason.index_retryable (some r) e s h
  after_indexing-Takes lease m unclassified e s closed h h' =
      fail-Takes lease Reason.index_unclassified none e s h

  pub put_session-rows :
      (t : Tables) (duration : ℕ) (s : Session) (e : OutboxEvent) (m : Message)
      → let p = put_session cfg world event_id worker t duration s e m in
        let rows = (acquire_outbox_lease event_id worker world.acquired_at duration s.events).0 in
        (p.in_transaction ≡ false)
        × (p.events ≡ run world.during_put rows)
        × (p.durable ≡ run world.during_put rows)
  unfolding after_put execute
  put_session-rows t duration s e m = ground arith

  -- What a lease and well-behaved rivals give the worker after the PUT: it still holds the lease.
  pub Holding-after :
      (t : Tables) (duration : ℕ) (s : Session) (lease : ℕ) (e : OutboxEvent) (m : Message)
      → HasUniqueKeys event_key s.events
      → Ready cfg world event_id worker t duration s lease e m
      → (cs : List Call) → All (IsRival worker lease (world.acquired_at + duration)) cs
      → (n : Session)
      → n.events
        ≡ run cs (acquire_outbox_lease event_id worker world.acquired_at duration s.events).0
      → Holding lease e n
  unfolding claim fenced
  Holding-after t duration s lease e m keys r cs rivals n at_n =
      let rows = (acquire_outbox_lease event_id worker world.acquired_at duration s.events).0 in
      let (e₀, grant) =
        acquire-Granted event_id worker world.acquired_at duration lease s.events keys r.granted in
      let same : e ≡ claim worker world.acquired_at duration e₀ = cc (r.found, grant.claimed) in
      let leased : Leased worker lease (world.acquired_at + duration) e =
        subst (Leased worker lease (world.acquired_at + duration)) (sym same)
          (record { holder = refl; until = refl; version = sym grant.version }) in
      record {
        keys = rw at_n (
            run-HasUniqueKeys cs rows
              (acquire-HasUniqueKeys event_id worker world.acquired_at duration s.events keys));
        found =
            ap (event_of event_id) at_n
            ∙ run-life event_id cs rows e r.found
            ∙ ap some (
                life_rivals event_id worker lease (world.acquired_at + duration) cs e leased
                  rivals);
        held = ground (arith, leased.holder, leased.version);
      }
