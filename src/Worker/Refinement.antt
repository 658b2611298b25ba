-- ===== src/Worker/Refinement.antt =====
-- The job refines the repository: what it commits is a history of repository calls, its own and
-- those of the workers that act while it waits. So what holds of histories holds of jobs.
use outlook_dictionary.Common.{
  ℕ, ◌+◌, ◌≡◌, refl, ◌∙◌, sym, ap, inl, inr, Bool, true, false, Option, none, some, List, [], ◌∷◌,
  ◌++◌, arith, if◌then◌else◌, leb, ◌==◌, Bool-cases, Option-cases,
}
use outlook_dictionary.Sql.Keyed.{get, HasUniqueKeys}
use outlook_dictionary.Mail.{Message, message_key}
use outlook_dictionary.Outbox.{
  EventType, mail_message_mutated, unsupported, Reason, OutboxEvent, Events, is_open,
  acquire_outbox_lease,
}
use outlook_dictionary.Outbox.Row.{event_key, event_of}
use outlook_dictionary.Outbox.History.{Call, step, run, run-append}
use outlook_dictionary.Outbox.Lifecycle.{IsConsistent, run-IsConsistent, run_final}
use outlook_dictionary.Worker.Elastic.{
  Indexing, result, permanent, retryable, unclassified, index_message, Provision, ensured, refused,
  failed, ensure_index,
}
use outlook_dictionary.Worker.Process.{
  Config, World, Tables, Session, Document, opened, execute, rollback, wait, bury, retry_delay,
  fail_recoverable, enqueue_embedding, finish, embed_and_finish, after_indexing, after_put, release,
  project, after_provision, provision, route_message, route_type, claimed, leased,
  process_outbox_event, process_outbox_event_job,
}
use outlook_dictionary.Worker.Steps.{document_of, needs_embedding}

-- The rows are what some history makes of `rows`.
abbrev Reaches : Events → Events → Type 0
Reaches rows now = (cs : List Call) × (now ≡ run cs rows)

Reaches-step : (rows now : Events) (c : Call) → Reaches rows now → Reaches rows (step c now)
unfolding run
Reaches-step rows now c (cs, e) = (cs ++ c ∷ [], ap (step c) e ∙ sym (run-append cs (c ∷ []) rows))

Reaches-run : (rows now : Events) (ds : List Call) → Reaches rows now → Reaches rows (run ds now)
Reaches-run rows now ds (cs, e) = (cs ++ ds, ap (run ds) e ∙ sym (run-append cs ds rows))

-- Both the rows that a session sees and those that are committed are reached.
record Within (rows : Events) (s : Session) : Type 0 where
  seen : Reaches rows s.events
  kept : Reaches rows s.durable

-- Either branch of a test.
choose :
    {rows : Events} (b : Bool) (x y : Session × Bool)
    → Within rows x.0
    → Within rows y.0
    → Within rows (if b then x else y).0
choose true x y hx hy = hx
choose false x y hx hy = hy

module _ (cfg : Config) (world : World) (event_id worker : ℕ) (rows : Events) where
  bury-Within :
      (lease : ℕ) (reason : Reason) (s : Session)
      → Within rows s
      → Within rows (bury cfg world event_id worker lease reason s).0
  unfolding bury step
  bury-Within lease reason s h =
      let r =
        Reaches-step rows s.events (Call.buries event_id worker lease reason world.settled_at)
          h.seen in
      record { seen = r; kept = r }

  fail-Within :
      (e : OutboxEvent) (lease : ℕ) (reason : Reason) (exc : Option (Option ℕ)) (s : Session)
      → Within rows s
      → Within rows (fail_recoverable cfg world event_id worker e lease reason exc s).0
  unfolding fail_recoverable step
  fail-Within e lease reason exc s h =
      elim (Bool-cases (leb cfg.max_attempts (e.attempt_count + 1))) [
        | inl spent ↦ rw spent (bury-Within lease reason s h)
        | inr more ↦
            let next = world.scheduled_at + retry_delay cfg (e.attempt_count + 1) exc in
            let r =
              Reaches-step rows s.events
                (Call.retries event_id worker lease reason next world.settled_at) h.seen in
            rw more (record { seen = r; kept = r })
      ]

  finish-Within :
      (lease : ℕ) (s : Session)
      → Within rows s
      → Within rows (finish cfg world event_id worker lease s).0
  unfolding finish step
  finish-Within lease s h =
      let r =
        Reaches-step rows s.events (Call.completes event_id worker lease world.settled_at) h.seen in
      record { seen = (r.0, ground (arith, r.1)); kept = (r.0, ground (arith, r.1)) }

  wait-Within : (cs : List Call) (s : Session) → Within rows s → Within rows (wait cs s)
  unfolding wait
  wait-Within cs s h = let r = Reaches-run rows s.durable cs h.kept in record { seen = r; kept = r }

  enqueue-Within :
      (m : Message) (s : Session)
      → Within rows s
      → Within rows (enqueue_embedding cfg world event_id worker m s).0
  unfolding enqueue_embedding
  enqueue-Within m s h = elim (Bool-cases s.in_transaction) [
    | inl opened_before ↦ rw opened_before (record { seen = h.kept; kept = h.kept })
    | inr closed ↦ elim (Bool-cases world.enqueue_returns) [
      | inl accepted ↦
          let w = wait-Within world.during_enqueue s h in
          rw (closed, accepted) (record { seen = w.seen; kept = w.kept })
      | inr refused_job ↦
          let w = wait-Within world.during_enqueue s h in
          rw (closed, refused_job) (record { seen = w.seen; kept = w.kept })
    ]
  ]

  embed-Within :
      (e : OutboxEvent) (lease : ℕ) (m : Message) (s : Session)
      → Within rows s
      → Within rows (embed_and_finish cfg world event_id worker e lease m s).0
  unfolding embed_and_finish
  embed-Within e lease m s h =
      let s' = (enqueue_embedding cfg world event_id worker m s).0 in
      let h' = enqueue-Within m s h in
      elim (Bool-cases (needs_embedding cfg m)) [
        | inl needs ↦
            rw needs (elim (Bool-cases (enqueue_embedding cfg world event_id worker m s).1) [
              | inl queued ↦ rw queued (finish-Within lease s' h')
              | inr lost ↦ rw lost (fail-Within e lease Reason.enqueue_failed none s' h')
            ])
        | inr lacks ↦ rw lacks (finish-Within lease s h)
      ]

  after_indexing-Within :
      (e : OutboxEvent) (lease : ℕ) (m : Message) (i : Indexing) (s : Session)
      → Within rows s
      → Within rows (after_indexing cfg world event_id worker e lease m i s).0
  unfolding after_indexing
  after_indexing-Within e lease m (result true c status) s h = embed-Within e lease m s h
  after_indexing-Within e lease m (result false c status) s h =
      fail-Within e lease (Reason.index_non_success status) none s h
  after_indexing-Within e lease m permanent s h = bury-Within lease Reason.index_permanent s h
  after_indexing-Within e lease m (retryable r) s h =
      fail-Within e lease Reason.index_retryable (some r) s h
  after_indexing-Within e lease m unclassified s h =
      fail-Within e lease Reason.index_unclassified none s h

  release-Within : (s : Session) → Within rows s → Within rows (release s)
  unfolding release
  release-Within s h = elim (Bool-cases s.in_transaction) [
    | inl pending_writes ↦ rw pending_writes (record { seen = h.seen; kept = h.seen })
    | inr closed ↦ rw closed (record { seen = h.seen; kept = h.kept })
  ]

  project-Within :
      (e : OutboxEvent) (lease : ℕ) (m : Message) (d : Document) (s : Session)
      → Within rows s
      → Within rows (project cfg world event_id worker e lease m d s).0
  unfolding project after_put
  project-Within e lease m d s h =
      let w = wait-Within world.during_put (release s) (release-Within s h) in
      after_indexing-Within e lease m (index_message world.put_answer)
        (after_put cfg world event_id worker e d s) (record { seen = w.seen; kept = w.kept })

  after_provision-Within :
      (e : OutboxEvent) (lease : ℕ) (m : Message) (d : Document) (p : Provision) (s : Session)
      → Within rows s
      → Within rows (after_provision cfg world event_id worker e lease m d p s).0
  unfolding after_provision
  after_provision-Within e lease m d ensured s h = project-Within e lease m d s h
  after_provision-Within e lease m d (refused true) s h =
      fail-Within e lease Reason.provisioning_retryable none s h
  after_provision-Within e lease m d (refused false) s h =
      bury-Within lease Reason.provisioning_failed s h
  after_provision-Within e lease m d failed s h = bury-Within lease Reason.provisioning_failed s h

  provision-Within :
      (e : OutboxEvent) (lease : ℕ) (m : Message) (d : Document) (s : Session)
      → Within rows s
      → Within rows (provision cfg world event_id worker e lease m d s).0
  unfolding provision
  provision-Within e lease m d s h =
      let (outcome, known) =
        ensure_index m.tenant_id world.probe_answer world.create_answer s.known_indices in
      choose cfg.has_provisioner _ _
        (after_provision-Within e lease m d outcome (record s { known_indices = known })
          (record { seen = h.seen; kept = h.kept }))
        (project-Within e lease m d s h)

  route_message-Within :
      (t : Tables) (e : OutboxEvent) (lease : ℕ) (o : Option Message) (s : Session)
      → Within rows s
      → Within rows (route_message cfg world event_id worker t e lease o s).0
  unfolding route_message
  route_message-Within t e lease none s h =
      bury-Within lease (Reason.message_not_found e.aggregate_id) s h
  route_message-Within t e lease (some m) s h =
      choose (m.tenant_id == e.tenant_id) _ _ (provision-Within e lease m (document_of t m) s h)
        (bury-Within lease (Reason.tenant_mismatch m.tenant_id e.tenant_id) s h)

  route_type-Within :
      (t : Tables) (e : OutboxEvent) (lease : ℕ) (y : EventType) (s : Session)
      → Within rows s
      → Within rows (route_type cfg world event_id worker t e lease y s).0
  unfolding route_type
  route_type-Within t e lease mail_message_mutated s h =
      route_message-Within t e lease (get message_key e.aggregate_id t.messages) s h
  route_type-Within t e lease (unsupported u) s h =
      bury-Within lease (Reason.unsupported_event_type (unsupported u)) s h

  leased-Within :
      (t : Tables) (lease : Option ℕ) (s : Session)
      → Within rows s
      → Within rows (leased cfg world event_id worker t lease s).0
  unfolding claimed
  leased-Within t none s h = h
  leased-Within t (some lease) s h = elim (Option-cases (event_of event_id s.events)) [
    | inl missing ↦ rw (missing, claimed) h
    | inr (e, found) ↦
        rw (found, claimed)
          (choose (is_open e.status) _ _ (route_type-Within t e lease e.event_type s h) h)
  ]

module _ (cfg : Config) (world : World) (event_id worker : ℕ) where
  -- Whatever the surroundings answer, a job commits what some history of repository calls makes of
  -- the rows that were committed before it.
  job_refines :
      (t : Tables) (duration : ℕ) (s : Session)
      → Reaches s.durable
          (process_outbox_event_job cfg world event_id worker t duration s).0.durable
  unfolding process_outbox_event_job process_outbox_event rollback execute step run
  job_refines t duration s =
      let (rows, lease) =
        acquire_outbox_lease event_id worker world.acquired_at duration s.durable in
      (leased-Within cfg world event_id worker s.durable t lease (execute rows (opened s)) (record {
        seen = (Call.acquires event_id worker world.acquired_at duration ∷ [], refl);
        kept = ([], refl);
      })).kept

-- One job with all that it depends on.
pub record Job : Type 0 where
  pub cfg : Config
  pub world : World
  pub event_id : ℕ
  pub worker : ℕ
  pub tables : Tables
  pub duration : ℕ

-- Jobs one after another, each with the calls of others inside it.
unfoldable pub run_jobs : List Job → Session → Session
run_jobs [] s = s
run_jobs (j ∷ js) s =
    run_jobs js (process_outbox_event_job j.cfg j.world j.event_id j.worker j.tables j.duration s).0

run_jobs-Reaches : (js : List Job) (s : Session) → Reaches s.durable (run_jobs js s).durable
unfolding run_jobs run
run_jobs-Reaches [] s = ([], refl)
run_jobs-Reaches (j ∷ js) s =
    let s' = (process_outbox_event_job j.cfg j.world j.event_id j.worker j.tables j.duration s).0 in
    let (cs, first_job) = job_refines j.cfg j.world j.event_id j.worker j.tables j.duration s in
    let (ds, rest) = run_jobs-Reaches js s' in
    (cs ++ ds, rest ∙ ap (run ds) first_job ∙ sym (run-append cs ds s.durable))

-- No sequence of jobs loses an event or makes its columns disagree with its status, and an event
-- that is DONE or DEAD_LETTER is never changed again by any job on any event.
pub run_jobs_safe :
    (js : List Job) (s : Session) (id : ℕ) (e : OutboxEvent)
    → HasUniqueKeys event_key s.durable
    → event_of id s.durable ≡ some e
    → IsConsistent e
    → (e' : OutboxEvent) × (event_of id (run_jobs js s).durable ≡ some e')
      × IsConsistent e'
      × (is_open e.status ≡ false → e' ≡ e)
run_jobs_safe js s id e keys found h =
    let (cs, reached) = run_jobs-Reaches js s in
    let (e', row, consistent) = run-IsConsistent id cs s.durable e found h in
    let row' = ap (event_of id) reached ∙ row in
    (e', row', consistent, λ final. cc (row, (run_final id cs s.durable e keys found h final).0))
