-- ===== src/Worker/Verdict.antt =====
-- What becomes of an event that is ready, in terms of the HTTP answer and of Redis alone.
use outlook_dictionary.Common.{
  ℕ, ◌+◌, ◌*◌, ◌^◌, ◌≡◌, refl, ◌∙◌, ap, inl, inr, Bool, true, false, not, ◌&&◌, ◌||◌, ◌==◌, Option,
  none, some, arith, if◌then◌else◌, leb, min, Bool-cases,
}
use outlook_dictionary.Text.{Text, codes, lower, contains, is_empty}
use outlook_dictionary.Mail.{Message}
use outlook_dictionary.Outbox.{pending, done, dead_letter, Reason, OutboxEvent, settle}
use outlook_dictionary.Outbox.Row.{event_of}
use outlook_dictionary.Worker.Elastic.{
  Answer, response, network_error, other_exception, result, permanent, retryable, index_message,
  is_transient, is_version_conflict,
}
use outlook_dictionary.Worker.Process.{Config, World, Session, retry_delay, backoff_delay}
use outlook_dictionary.Worker.Steps.{is_success}
use outlook_dictionary.Worker.Outcome.{Branch, branch, branch_row, is_completed, Takes}

-- Elasticsearch has the document, or reports with a 409 that it has a version of it already: the
-- text of the 409 names a version, or is empty.
abbrev pub is_accepted : Answer → Bool
is_accepted (response status body _) =
    status == 200
    || status == 201
    || status == 409
      && (contains (codes "version_conflict_engine_exception") (lower body)
          || contains (codes "version conflict") (lower body)
          || contains (codes "version") (lower body)
          || is_empty (lower body))
is_accepted network_error = false
is_accepted other_exception = false

-- What becomes of an event: it is done, or dead for a reason, or put off for one.
pub data Verdict : Type 0 where
  delivered : Verdict
  given_up : Reason → Verdict
  put_off : Reason → (asked : Option ℕ) → Verdict

abbrev pub is_delivered : Verdict → Bool
is_delivered delivered = true
is_delivered (given_up _) = false
is_delivered (put_off _ _) = false

-- An accepted document is delivered once Redis has its embedding job, where one is due. Statuses 429
-- and 500, 502, 503, 504, network errors and unknown exceptions are put off, for as long as the
-- server asked; any other status is given up.
abbrev pub rejected_verdict : Answer → Verdict
rejected_verdict (response status _ retry_after) =
    if status == 429 || status == 500 || status == 502 || status == 503 || status == 504
    then put_off Reason.index_retryable retry_after
    else given_up Reason.index_permanent
rejected_verdict network_error = put_off Reason.index_retryable none
rejected_verdict other_exception = put_off Reason.index_unclassified none

abbrev pub verdict : Config → World → Message → Answer → Verdict
verdict cfg world m a =
    if is_accepted a
    then if (cfg.has_redis && not m.is_deleted) && not world.enqueue_returns
      then put_off Reason.enqueue_failed none
      else delivered
    else rejected_verdict a

-- The row of an event that is delivered: DONE at the time of the settlement, with no lock.
abbrev pub delivered_row : World → OutboxEvent → OutboxEvent
delivered_row world e = record e {
  status = done;
  locked_by = none;
  locked_until = none;
  completed_at = some world.settled_at;
}

-- The row of an event whose attempt failed for good: one attempt more, the reason, and no lock.
abbrev pub given_up_row : Reason → OutboxEvent → OutboxEvent
given_up_row reason e = record e {
  status = dead_letter;
  locked_by = none;
  locked_until = none;
  last_error = some reason;
  attempt_count = e.attempt_count + 1;
}

-- The delay of the next attempt: what the server asked for, or the base doubled with each attempt
-- up to the maximum.
abbrev pub delay_of : Config → OutboxEvent → Option ℕ → ℕ
delay_of cfg e none = min (cfg.base_backoff * 2 ^ e.attempt_count) cfg.max_backoff
delay_of cfg e (some seconds) = seconds

abbrev pub settled_row : Config → World → Verdict → OutboxEvent → OutboxEvent
settled_row cfg world delivered e = delivered_row world e
settled_row cfg world (given_up reason) e = given_up_row reason e
settled_row cfg world (put_off reason asked) e =
    if leb cfg.max_attempts (e.attempt_count + 1) then given_up_row reason e else record e {
      status = pending;
      locked_by = none;
      locked_until = none;
      last_error = some reason;
      attempt_count = e.attempt_count + 1;
      next_attempt_at = world.scheduled_at + delay_of cfg e asked;
    }

module _ (cfg : Config) (world : World) (event_id : ℕ) where
  -- A call has followed a verdict: the row is durable, and the result is as it should be.
  abbrev pub Follows : Verdict → OutboxEvent → Session × Bool → Type 0
  Follows v e (s, finished) =
      (event_of event_id s.durable ≡ some (settled_row cfg world v e)) × (finished ≡ is_delivered v)

  -- A branch of the code and a verdict leave one row and one result.
  abbrev Agrees : OutboxEvent → Branch → Verdict → Type 0
  Agrees e b v =
      (branch_row cfg world b e ≡ settled_row cfg world v e) × (is_completed b ≡ is_delivered v)

  Agrees-delivered : (e : OutboxEvent) → Agrees e Branch.completed delivered
  unfolding settle
  Agrees-delivered e = (refl, refl)

  Agrees-given_up :
      (e : OutboxEvent) (reason : Reason) → Agrees e (Branch.buried reason) (given_up reason)
  unfolding settle
  Agrees-given_up e reason = (refl, refl)

  Agrees-put_off :
      (e : OutboxEvent) (reason : Reason) (exc : Option (Option ℕ)) (asked : Option ℕ)
      → retry_delay cfg (e.attempt_count + 1) exc ≡ delay_of cfg e asked
      → Agrees e (Branch.failed reason exc) (put_off reason asked)
  unfolding settle
  Agrees-put_off e reason exc asked same = (rw same, refl)

  delay_same :
      (e : OutboxEvent) (asked : Option ℕ)
      → retry_delay cfg (e.attempt_count + 1) (some asked) ≡ delay_of cfg e asked
  unfolding retry_delay backoff_delay
  delay_same e none = ap (λ n. min (cfg.base_backoff * 2 ^ n) cfg.max_backoff) (omega arith)
  delay_same e (some seconds) = refl

  delay_same_none :
      (e : OutboxEvent) → retry_delay cfg (e.attempt_count + 1) none ≡ delay_of cfg e none
  unfolding retry_delay backoff_delay
  delay_same_none e = ap (λ n. min (cfg.base_backoff * 2 ^ n) cfg.max_backoff) (omega arith)

  index_accepted :
      (a : Answer)
      → is_accepted a ≡ true
      → (c : Bool) × (status : ℕ) × (index_message a ≡ result true c status)
  unfolding index_message is_version_conflict
  index_accepted (response status body r) ok = elim (Bool-cases (status == 200 || status == 201)) [
    | inl stored ↦ (false, status, ground arith)
    | inr other ↦ (true, 409, ground arith)
  ]
  index_accepted network_error ok = cc
  index_accepted other_exception ok = cc

  index_rejected :
      (status : ℕ) (body : Text) (r : Option ℕ)
      → is_accepted (response status body r) ≡ false
      → index_message (response status body r) ≡ (
          if status == 429 || status == 500 || status == 502 || status == 503 || status == 504
          then retryable r
          else permanent)
  unfolding index_message is_version_conflict is_transient
  index_rejected status body r refused = ground arith

  pub index_success : (a : Answer) → is_success (index_message a) ≡ is_accepted a
  unfolding index_message is_version_conflict is_transient
  index_success (response status body r) = ground arith
  index_success network_error = refl
  index_success other_exception = refl

  Agrees-accepted :
      (m : Message) (e : OutboxEvent) (a : Answer)
      → is_accepted a ≡ true
      → Agrees e (branch cfg world m (index_message a)) (verdict cfg world m a)
  Agrees-accepted m e a ok =
      let (c, status, same) = index_accepted a ok in
      rw (same, ok)
        (elim (Bool-cases ((cfg.has_redis && not m.is_deleted) && not world.enqueue_returns)) [
          | inl due ↦ rw due (Agrees-put_off e Reason.enqueue_failed none none (delay_same_none e))
          | inr none_due ↦ rw none_due (Agrees-delivered e)
        ])

  Agrees-rejected :
      (m : Message) (e : OutboxEvent) (a : Answer)
      → is_accepted a ≡ false
      → Agrees e (branch cfg world m (index_message a)) (verdict cfg world m a)
  unfolding index_message
  Agrees-rejected m e (response status body r) refused =
      rw (index_rejected status body r refused, refused)
        (elim (Bool-cases
          (status == 429 || status == 500 || status == 502 || status == 503 || status == 504)) [
            | inl transient ↦
                rw transient (Agrees-put_off e Reason.index_retryable (some r) r (delay_same e r))
            | inr other ↦ rw other (Agrees-given_up e Reason.index_permanent)
          ])
  Agrees-rejected m e network_error refused =
      Agrees-put_off e Reason.index_retryable (some none) none (delay_same e none)
  Agrees-rejected m e other_exception refused =
      Agrees-put_off e Reason.index_unclassified none none (delay_same_none e)

  -- A call that takes the branch of the code follows the verdict.
  pub Takes-Follows :
      (worker : ℕ) (m : Message) (e : OutboxEvent) (a : Answer) (p : Session × Bool)
      → Takes cfg world event_id worker (branch cfg world m (index_message a)) e p
      → Follows (verdict cfg world m a) e p
  Takes-Follows worker m e a p (row, finished) =
      let agrees : Agrees e (branch cfg world m (index_message a)) (verdict cfg world m a) =
        elim (Bool-cases (is_accepted a)) [
          | inl ok ↦ Agrees-accepted m e a ok
          | inr refused ↦ Agrees-rejected m e a refused
        ] in
      (row ∙ ap some agrees.0, finished ∙ agrees.1)
