-- ===== src/Worker/Job.antt =====
-- The job of one outbox event as a whole.
use outlook_dictionary.Common.{
  ℕ, ◌+◌, ◌≡◌, refl, ◌∙◌, sym, ap, inl, inr, true, none, some, List, [], ◌∷◌, ◌++◌, arith,
  if◌then◌else◌, Bool-cases, All, All-append,
}
use mathlib.Core.Path.{subst}
use outlook_dictionary.Sql.Keyed.{HasUniqueKeys}
use outlook_dictionary.Mail.{Message}
use outlook_dictionary.Outbox.{OutboxEvent, Events, done, acquire_outbox_lease, settle}
use outlook_dictionary.Outbox.Row.{event_key, event_of, cas_hit, acquire-HasUniqueKeys}
use outlook_dictionary.Outbox.History.{Call, run, run-append, run-HasUniqueKeys}
use outlook_dictionary.Outbox.Lease.{IsRival}
use outlook_dictionary.Worker.Elastic.{index_message}
use outlook_dictionary.Worker.Process.{
  Config, World, Tables, Session, Effect, puts, enqueues, counts_success, opened, execute, wait,
  rollback, finish, after_put, after_indexing, process_outbox_event_job,
}
use outlook_dictionary.Worker.Steps.{
  document_of, needs_embedding, sent, embed_path, embed_true, after_indexing-true,
}
use outlook_dictionary.Worker.Path.{Ready, put_session, process_path, process-Ready}
use outlook_dictionary.Worker.Outcome.{after_indexing-Takes, put_session-rows, Holding-after}
use outlook_dictionary.Worker.Verdict.{is_accepted, verdict, Follows, Takes-Follows, index_success}

module _ (cfg : Config) (world : World) (event_id worker : ℕ) where
  -- The job of an event that is ready, while no rival ends the worker's lease, follows a verdict that
  -- is told from the HTTP answer of Elasticsearch and the answer of Redis alone: the result is `True`
  -- exactly if the verdict is that the event is delivered, and the committed row of the event is the
  -- one that the verdict prescribes: DONE; or dead, or put off by a delay, with one attempt more.
  pub job-Follows-verdict :
      (t : Tables) (duration : ℕ) (s : Session) (lease : ℕ) (e : OutboxEvent) (m : Message)
      → HasUniqueKeys event_key s.durable
      → Ready cfg world event_id worker t duration (opened s) lease e m
      → All (IsRival worker lease (world.acquired_at + duration)) world.during_put
      → All (IsRival worker lease (world.acquired_at + duration)) world.during_enqueue
      → Follows cfg world event_id
          (verdict cfg world m world.put_answer)
          e
          (process_outbox_event_job cfg world event_id worker t duration s)
  unfolding process_outbox_event_job rollback wait
  job-Follows-verdict t duration s lease e m keys r put_rivals enqueue_rivals =
      let n = put_session cfg world event_id worker t duration (opened s) e m in
      let rows = (acquire_outbox_lease event_id worker world.acquired_at duration s.durable).0 in
      let (closed, events, durable) =
        put_session-rows cfg world event_id worker t duration (opened s) e m in
      let takes =
        after_indexing-Takes cfg world event_id worker lease m (index_message world.put_answer) e n
          closed
          (Holding-after cfg world event_id worker t duration (opened s) lease e m keys r
            world.during_put put_rivals n events)
          (Holding-after cfg world event_id worker t duration (opened s) lease e m keys r
            (world.during_put ++ world.during_enqueue)
            (All-append (IsRival worker lease (world.acquired_at + duration)) world.during_put
              world.during_enqueue put_rivals enqueue_rivals)
            (wait world.during_enqueue n)
            (ap (run world.during_enqueue) durable
              ∙ sym (run-append world.during_put world.during_enqueue rows))) in
      subst (λ p. Follows cfg world event_id (verdict cfg world m world.put_answer) e p)
        (sym (process_path cfg world event_id worker t duration (opened s) lease e m r))
        (Takes-Follows cfg world event_id worker m e world.put_answer
          (after_indexing cfg world event_id worker e lease m (index_message world.put_answer) n)
          takes)

  finish_done :
      (lease : ℕ) (s : Session)
      → HasUniqueKeys event_key s.events
      → (finish cfg world event_id worker lease s).1 ≡ true
      → (e : OutboxEvent) × (event_of event_id (finish cfg world event_id worker lease s).0.durable
          ≡ some e)
        × (e.status ≡ done)
        × ((finish cfg world event_id worker lease s).0.log ≡ s.log ++ counts_success ∷ [])
  unfolding finish settle
  finish_done lease s keys ok =
      let (e, found, held, row) =
        cas_hit event_id worker lease done none none world.settled_at s.events keys ok in
      (settle world.settled_at done none none e, ground (arith, row), refl, ground arith)

  -- The effects of a call that completes an event, after those of before.
  abbrev pub delivery : Tables → OutboxEvent → Message → List Effect → List Effect
  delivery t e m log =
      let put = log ++ puts e.tenant_id (document_of t m) e.aggregate_version ∷ [] in
      if needs_embedding cfg m
      then (put ++ enqueues m.id m.tenant_id m.version (m.id, m.version) ∷ [])
        ++ counts_success ∷ []
      else put ++ counts_success ∷ []

  sent_log :
      (t : Tables) (duration : ℕ) (s : Session) (e : OutboxEvent) (m : Message)
      → (sent cfg world event_id worker m
            (put_session cfg world event_id worker t duration (opened s) e m)).log
          ++ counts_success ∷ []
        ≡ delivery t e m s.log
  unfolding after_put execute wait
  sent_log t duration s e m = ground arith

  sent_keys :
      (m : Message) (n : Session) (rows : Events) (cs : List Call)
      → HasUniqueKeys event_key rows
      → n.events ≡ run cs rows
      → n.durable ≡ run cs rows
      → HasUniqueKeys event_key (sent cfg world event_id worker m n).events
  unfolding wait
  sent_keys m n rows cs keys at_events at_durable = elim (Bool-cases (needs_embedding cfg m)) [
    | inl needs ↦
        rw (needs, at_durable)
          (run-HasUniqueKeys world.during_enqueue (run cs rows) (run-HasUniqueKeys cs rows keys))
    | inr lacks ↦ rw (lacks, at_events) (run-HasUniqueKeys cs rows keys)
  ]

  -- Only a delivered event is marked DONE. Whatever rivals do, if the job returns `True`, then the
  -- event was ready, Elasticsearch answered the PUT of its document with 200 or 201, or with a 409
  -- whose text names a version or is empty, and Redis accepted its embedding job where one is due;
  -- the PUT and the enqueue, in this order, are all that the job did outside PostgreSQL but for the
  -- counter; and the committed row of the event is DONE.
  pub job_true_delivers :
      (t : Tables) (duration : ℕ) (s : Session)
      → HasUniqueKeys event_key s.durable
      → let (s', finished) = process_outbox_event_job cfg world event_id worker t duration s in
        finished ≡ true
        → (lease : ℕ) × (e : OutboxEvent) × (m : Message) × Ready cfg world event_id worker t
            duration
            (opened s)
            lease
            e
            m
          × (is_accepted world.put_answer ≡ true)
          × (needs_embedding cfg m ≡ true → world.enqueue_returns ≡ true)
          × (s'.log ≡ delivery t e m s.log)
          × (e' : OutboxEvent) × (event_of event_id s'.durable ≡ some e')
          × (e'.status ≡ done)
  unfolding process_outbox_event_job rollback
  job_true_delivers t duration s keys ok =
      let (lease, e, m, r) = process-Ready cfg world event_id worker t duration (opened s) ok in
      let n = put_session cfg world event_id worker t duration (opened s) e m in
      let rows = (acquire_outbox_lease event_id worker world.acquired_at duration s.durable).0 in
      let (closed, events, durable) =
        put_session-rows cfg world event_id worker t duration (opened s) e m in
      let path = process_path cfg world event_id worker t duration (opened s) lease e m r in
      let indexing = index_message world.put_answer in
      let (success, embeds) =
        after_indexing-true cfg world event_id worker e lease m indexing n
          (sym (ap (λ p. p.1) path) ∙ ok) in
      let embedded = sym (ap (λ p. p.1) (path ∙ embeds)) ∙ ok in
      let queued = embed_true cfg world event_id worker e lease m n closed embedded in
      let whole = path ∙ embeds ∙ embed_path cfg world event_id worker e lease m n closed queued in
      let (e', row, status, log) =
        finish_done lease (sent cfg world event_id worker m n)
          (sent_keys m n rows world.during_put
            (acquire-HasUniqueKeys event_id worker world.acquired_at duration s.durable keys) events
            durable)
          (sym (ap (λ p. p.1) whole) ∙ ok) in
      (
        lease,
        e,
        m,
        r,
        sym (index_success cfg world event_id world.put_answer) ∙ success,
        queued,
        ap (λ p. p.0.log) whole ∙ log ∙ sent_log t duration s e m,
        e',
        ap (λ p. event_of event_id p.0.durable) whole ∙ row,
        status,
      )
