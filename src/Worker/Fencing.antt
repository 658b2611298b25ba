-- ===== src/Worker/Fencing.antt =====
-- A worker that has no lease, or has lost it, changes nothing of the event.
use mathlib.Core.Path.{subst}
use outlook_dictionary.Common.{
  ℕ, ◌+◌, ◌≡◌, refl, ◌∙◌, sym, ap, ◌⊎◌, inl, inr, Bool, true, false, not, ◌&&◌, Option, none, some,
  [], ◌∷◌, ◌++◌, arith, leb, Bool-cases,
}
use outlook_dictionary.Sql.Keyed.{HasUniqueKeys}
use outlook_dictionary.Mail.{Message}
use outlook_dictionary.Outbox.{
  Status, pending, done, dead_letter, Reason, OutboxEvent, Events, acquire_outbox_lease,
  update_status_cas,
}
use outlook_dictionary.Outbox.Row.{event_key, event_of, acquire-HasUniqueKeys}
use outlook_dictionary.Outbox.History.{
  run, run-append, run-life, life, life-keeps, run-HasUniqueKeys,
}
use outlook_dictionary.Outbox.Lease.{IsSpent, spent_fenced, effect-IsSpent}
use outlook_dictionary.Worker.Elastic.{
  Indexing, result, permanent, retryable, unclassified, index_message,
}
use outlook_dictionary.Worker.Process.{
  Config, World, Tables, Session, opened, execute, wait, rollback, bury, retry_delay,
  fail_recoverable, finish, embed_and_finish, after_indexing, enqueues, process_outbox_event,
  process_outbox_event_job,
}
use outlook_dictionary.Worker.Steps.{needs_embedding, sent, embed_path}
use outlook_dictionary.Worker.Path.{Ready, put_session, process_path}
use outlook_dictionary.Worker.Outcome.{put_session-rows, refused_path}

module _ (cfg : Config) (world : World) (event_id worker : ℕ) where
  -- A job that is refused the lease returns `False`, commits nothing and does nothing else.
  job_refused :
      (t : Tables) (duration : ℕ) (s : Session)
      → (acquire_outbox_lease event_id worker world.acquired_at duration s.durable).1 ≡ none
      → let (s', finished) = process_outbox_event_job cfg world event_id worker t duration s in
        (finished ≡ false) × (s'.durable ≡ s.durable) × (s'.log ≡ s.log)
  unfolding process_outbox_event_job process_outbox_event rollback execute
  job_refused t duration s refused = rw refused (refl, refl, refl)

  -- The lease is spent in the rows that the session sees.
  record Lost (lease : ℕ) (e : OutboxEvent) (s : Session) : Type 0 where
    keys : HasUniqueKeys event_key s.events
    found : event_of event_id s.events ≡ some e
    spent : IsSpent lease e

  -- The call returned `False` and left the row of the event as it stood in `rows`.
  abbrev Leaves : Events → Session × Bool → Type 0
  Leaves rows (s, finished) =
      (finished ≡ false) × (event_of event_id s.durable ≡ event_of event_id rows)

  cas-Lost :
      (lease : ℕ) (st : Status) (r : Option Reason) (n : Option ℕ) (e : OutboxEvent) (s : Session)
      → Lost lease e s
      → ((update_status_cas event_id worker lease st r n world.settled_at s.events).1 ≡ false)
        × (event_of event_id
              (update_status_cas event_id worker lease st r n world.settled_at s.events).0
            ≡ event_of event_id s.events)
  unfolding run
  cas-Lost lease st r n e s h =
      spent_fenced event_id lease worker st r n world.settled_at [] s.events e h.keys h.found
        h.spent

  finish-Lost :
      (lease : ℕ) (e : OutboxEvent) (s : Session)
      → Lost lease e s
      → Leaves s.events (finish cfg world event_id worker lease s)
  unfolding finish
  finish-Lost lease e s h =
      let (missed, stays) = cas-Lost lease done none none e s h in (missed, rw missed stays)

  bury-Lost :
      (lease : ℕ) (reason : Reason) (e : OutboxEvent) (s : Session)
      → Lost lease e s
      → Leaves s.events (bury cfg world event_id worker lease reason s)
  unfolding bury
  bury-Lost lease reason e s h = (refl, (cas-Lost lease dead_letter (some reason) none e s h).1)

  fail-Lost :
      (x : OutboxEvent) (lease : ℕ) (reason : Reason) (exc : Option (Option ℕ)) (e : OutboxEvent)
      (s : Session)
      → Lost lease e s
      → Leaves s.events (fail_recoverable cfg world event_id worker x lease reason exc s)
  unfolding fail_recoverable
  fail-Lost x lease reason exc e s h =
      elim (Bool-cases (leb cfg.max_attempts (x.attempt_count + 1))) [
        | inl over ↦ rw over (bury-Lost lease reason e s h)
        | inr more ↦ rw more (
          refl,
          (cas-Lost lease pending (some reason)
              (some (world.scheduled_at + retry_delay cfg (x.attempt_count + 1) exc)) e s h).1,
        )
      ]

  -- The row is left as rivals left it, before or after the enqueue.
  abbrev LeavesOne : Session → Session × Bool → Type 0
  LeavesOne s r = Leaves s.events r ⊎ Leaves (run world.during_enqueue s.durable) r

  sent-Lost :
      (lease : ℕ) (m : Message) (e e' : OutboxEvent) (s : Session)
      → Lost lease e s
      → Lost lease e' (wait world.during_enqueue s)
      → LeavesOne s (finish cfg world event_id worker lease (sent cfg world event_id worker m s))
  unfolding wait
  sent-Lost lease m e e' s h h' = elim (Bool-cases (needs_embedding cfg m)) [
    | inl needs ↦
        let n = record (wait world.during_enqueue s) {
          log =
              (wait world.during_enqueue s).log
              ++ enqueues m.id m.tenant_id m.version (m.id, m.version) ∷ [];
        } in
        rw needs (
          inr (
            finish-Lost lease e' n (record { keys = h'.keys; found = h'.found; spent = h'.spent })))
    | inr lacks ↦ rw lacks (inl (finish-Lost lease e s h))
  ]

  embed-Lost :
      (x : OutboxEvent) (lease : ℕ) (m : Message) (e e' : OutboxEvent) (s : Session)
      → s.in_transaction ≡ false
      → Lost lease e s
      → Lost lease e' (wait world.during_enqueue s)
      → LeavesOne s (embed_and_finish cfg world event_id worker x lease m s)
  unfolding wait
  embed-Lost x lease m e e' s closed h h' =
      elim (Bool-cases (needs_embedding cfg m && not world.enqueue_returns)) [
        | inl refused ↦
            subst (LeavesOne s)
              (sym (
                refused_path cfg world event_id worker lease m x s closed (ground arith)
                  (ground arith)))
              (inr
                (fail-Lost x lease Reason.enqueue_failed none e' (wait world.during_enqueue s) h'))
        | inr accepted ↦
            subst (LeavesOne s)
              (sym
                (embed_path cfg world event_id worker x lease m s closed (λ needs. ground arith)))
              (sent-Lost lease m e e' s h h')
      ]

  after_indexing-Lost :
      (x : OutboxEvent) (lease : ℕ) (m : Message) (i : Indexing) (e e' : OutboxEvent) (s : Session)
      → s.in_transaction ≡ false
      → Lost lease e s
      → Lost lease e' (wait world.during_enqueue s)
      → LeavesOne s (after_indexing cfg world event_id worker x lease m i s)
  unfolding after_indexing
  after_indexing-Lost x lease m (result true c status) e e' s closed h h' =
      embed-Lost x lease m e e' s closed h h'
  after_indexing-Lost x lease m (result false c status) e e' s closed h h' =
      inl (fail-Lost x lease (Reason.index_non_success status) none e s h)
  after_indexing-Lost x lease m permanent e e' s closed h h' =
      inl (bury-Lost lease Reason.index_permanent e s h)
  after_indexing-Lost x lease m (retryable r) e e' s closed h h' =
      inl (fail-Lost x lease Reason.index_retryable (some r) e s h)
  after_indexing-Lost x lease m unclassified e e' s closed h h' =
      inl (fail-Lost x lease Reason.index_unclassified none e s h)

  -- A worker whose lease was spent while it waited for Elasticsearch (it ran out and another worker
  -- acquired the event, say) returns `False`, and leaves the row of the event exactly as the other
  -- workers left it, whatever Elasticsearch and Redis answer.
  pub job_fenced :
      (t : Tables) (duration : ℕ) (s : Session) (lease : ℕ) (x e : OutboxEvent) (m : Message)
      → HasUniqueKeys event_key s.durable
      → Ready cfg world event_id worker t duration (opened s) lease x m
      → let rows = (acquire_outbox_lease event_id worker world.acquired_at duration s.durable).0 in
        event_of event_id (run world.during_put rows) ≡ some e
        → IsSpent lease e
        → let (s', finished) = process_outbox_event_job cfg world event_id worker t duration s in
          (finished ≡ false)
          × ((event_of event_id s'.durable ≡ event_of event_id (run world.during_put rows))
              ⊎ (event_of event_id s'.durable
                  ≡ event_of event_id (run (world.during_put ++ world.during_enqueue) rows)))
  unfolding process_outbox_event_job rollback wait
  job_fenced t duration s lease x e m keys r found spent =
      let n = put_session cfg world event_id worker t duration (opened s) x m in
      let rows = (acquire_outbox_lease event_id worker world.acquired_at duration s.durable).0 in
      let after = run world.during_put rows in
      let (closed, events, durable) =
        put_session-rows cfg world event_id worker t duration (opened s) x m in
      let after_keys =
        run-HasUniqueKeys world.during_put rows
          (acquire-HasUniqueKeys event_id worker world.acquired_at duration s.durable keys) in
      let now : Lost lease e n = record {
        keys = rw events after_keys;
        found = ap (event_of event_id) events ∙ found;
        spent = spent;
      } in
      let later : Lost lease (life event_id world.during_enqueue e) (wait world.during_enqueue n) =
        record {
          keys = rw durable (run-HasUniqueKeys world.during_enqueue after after_keys);
          found =
              ap (λ rs. event_of event_id (run world.during_enqueue rs)) durable
              ∙ run-life event_id world.during_enqueue after e found;
          spent =
              life-keeps (IsSpent lease) (effect-IsSpent lease) event_id world.during_enqueue e
                spent;
        } in
      let leaves =
        after_indexing-Lost x lease m (index_message world.put_answer) e
          (life event_id world.during_enqueue e) n closed now later in
      elim (subst (LeavesOne n)
        (sym (process_path cfg world event_id worker t duration (opened s) lease x m r)) leaves) [
          | inl (missed, row) ↦ (missed, inl (row ∙ ap (event_of event_id) events))
          | inr (missed, row) ↦ (
            missed,
            inr (
                row
                ∙ ap (λ rs. event_of event_id (run world.during_enqueue rs)) durable
                ∙ ap (event_of event_id)
                    (sym (run-append world.during_put world.during_enqueue rows))),
          )
        ]
