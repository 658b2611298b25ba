-- ===== src/Examples/Workers.antt =====
-- The worker on the event of one message, in good and bad surroundings.
use outlook_dictionary.Common.{
  ℕ, ◌≡◌, ◌⊎◌, ◌++◌, refl, inl, true, false, none, some, [], ◌∷◌, arith,
}
use outlook_dictionary.Sql.{first, update_where}
use outlook_dictionary.Mail.{Message}
use outlook_dictionary.Outbox.{
  in_flight, done, Action, OutboxEvent, is_open, acquire_outbox_lease, eligible, claim,
}
use outlook_dictionary.Outbox.Row.{event_of}
use outlook_dictionary.Outbox.History.{Call, run, step}
use outlook_dictionary.Outbox.Lifecycle.{IsConsistent, new_event-IsConsistent}
use outlook_dictionary.Worker.Elastic.{response, index_message}
use outlook_dictionary.Worker.Process.{
  Config, World, Tables, Session, opened, process_outbox_event, process_outbox_event_job,
}
use outlook_dictionary.Worker.Steps.{needs_embedding}
use outlook_dictionary.Worker.Path.{Ready}
use outlook_dictionary.Worker.Transactions.{NoViolation, process-NoViolation}
use outlook_dictionary.Worker.Verdict.{verdict, Follows, is_accepted}
use outlook_dictionary.Worker.Job.{job-Follows-verdict, job_true_delivers, delivery}
use outlook_dictionary.Worker.Fencing.{job_fenced}
use outlook_dictionary.Worker.Refinement.{Job, run_jobs, run_jobs_safe}
use outlook_dictionary.Examples.Outboxes.{first_event, outbox, outbox_keys}

abbrev config : Config
config = record {
  max_attempts = 5;
  base_backoff = 1;
  max_backoff = 300;
  has_redis = true;
  has_provisioner = false;
}

abbrev world : World
world = record {
  acquired_at = 100;
  scheduled_at = 104;
  settled_at = 105;
  probe_answer = response 200 [] none;
  create_answer = response 200 [] none;
  put_answer = response 201 [] none;
  enqueue_returns = true;
  during_put = Call.acquires 1 51 103 10 ∷ [];
  during_enqueue = [];
}

abbrev message : Message
message = record {
  id = 7;
  tenant_id = 3;
  mail_account_id = 2;
  provider_message_id = 900;
  version = 1;
  is_deleted = false;
  subject = some 1;
  body = none;
  body_preview = none;
  sender = none;
  received_date_time = none;
  has_attachments = false;
  is_read = false;
}

abbrev tables : Tables
tables = record { messages = message ∷ []; participants = []; memberships = [] }

abbrev start : Session
start = record {
  events = outbox;
  durable = outbox;
  in_transaction = false;
  violations = 0;
  known_indices = [];
  log = [];
}

abbrev claimed_event : OutboxEvent
claimed_event = record first_event {
  status = in_flight;
  locked_by = some 50;
  locked_until = some 110;
  lease_version = 2;
}

ready : Ready config world 1 50 tables 10 (opened start) 2 claimed_event message
unfolding acquire_outbox_lease first update_where eligible claim
ready = record {
  granted = refl;
  found = refl;
  opened = refl;
  supported = refl;
  message = refl;
  tenant = refl;
  index = refl;
}

job-Follows-verdict_example :
    Follows config world 1
      (verdict config world message world.put_answer)
      claimed_event
      (process_outbox_event_job config world 1 50 tables 10 start)
job-Follows-verdict_example =
    job-Follows-verdict config world 1 50 tables 10 start 2 claimed_event message outbox_keys ready
      (omega arith, tt) tt

job_true : (process_outbox_event_job config world 1 50 tables 10 start).1 ≡ true
unfolding index_message
job_true = job-Follows-verdict_example.1

job_true_delivers_example :
    let (s', finished) = process_outbox_event_job config world 1 50 tables 10 start in
    (lease : ℕ) × (e : OutboxEvent) × (m : Message) × Ready config world 1 50 tables 10
      (opened start)
      lease
      e
      m
    × (is_accepted world.put_answer ≡ true)
    × (needs_embedding config m ≡ true → world.enqueue_returns ≡ true)
    × (s'.log ≡ delivery config world 1 50 tables e m start.log)
    × (e' : OutboxEvent) × (event_of 1 s'.durable ≡ some e')
    × (e'.status ≡ done)
job_true_delivers_example = job_true_delivers config world 1 50 tables 10 start outbox_keys job_true

process-NoViolation_example :
    NoViolation start (process_outbox_event config world 1 50 tables 10 start)
process-NoViolation_example = process-NoViolation config world 1 50 tables 10 start

-- Another worker takes the event over when the lease has run out.
abbrev slow_world : World
slow_world = record world { during_put = Call.acquires 1 51 111 10 ∷ [] }

abbrev taken_event : OutboxEvent
taken_event = record claimed_event {
  locked_by = some 51;
  locked_until = some 121;
  lease_version = 3;
}

slow-Ready : Ready config slow_world 1 50 tables 10 (opened start) 2 claimed_event message
unfolding acquire_outbox_lease first update_where eligible claim
slow-Ready = record {
  granted = refl;
  found = refl;
  opened = refl;
  supported = refl;
  message = refl;
  tenant = refl;
  index = refl;
}

job_fenced_example :
    let rows = (acquire_outbox_lease 1 50 100 10 outbox).0 in
    let (s', finished) = process_outbox_event_job config slow_world 1 50 tables 10 start in
    (finished ≡ false)
    × ((event_of 1 s'.durable ≡ event_of 1 (run slow_world.during_put rows))
        ⊎ (event_of 1 s'.durable
            ≡ event_of 1 (run (slow_world.during_put ++ slow_world.during_enqueue) rows)))
unfolding run step acquire_outbox_lease first update_where eligible claim
job_fenced_example =
    job_fenced config slow_world 1 50 tables 10 start 2 claimed_event taken_event message
      outbox_keys slow-Ready refl (inl (omega arith))

abbrev one_job : Job
one_job = record {
  cfg = config;
  world = world;
  event_id = 1;
  worker = 50;
  tables = tables;
  duration = 10;
}

run_jobs_safe_example :
    (e : OutboxEvent) × (event_of 1 (run_jobs (one_job ∷ one_job ∷ []) start).durable ≡ some e)
    × IsConsistent e
    × (is_open first_event.status ≡ false → e ≡ first_event)
unfolding first
run_jobs_safe_example =
    run_jobs_safe (one_job ∷ one_job ∷ []) start 1 first_event outbox_keys refl
      (new_event-IsConsistent 1 3 7 1 Action.created 100)
