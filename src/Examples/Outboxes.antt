-- ===== src/Examples/Outboxes.antt =====
-- The outbox at two events.
use outlook_dictionary.Common.{ℕ, ◌≡◌, ◌≤◌, refl, inl, false, none, some, List, [], ◌∷◌, arith}
use outlook_dictionary.Sql.{first, update_where, rowcount}
use outlook_dictionary.Sql.Keyed.{HasUniqueKeys}
use outlook_dictionary.Outbox.{
  pending, in_flight, done, Reason, Action, OutboxEvent, Events, new_event, acquire_outbox_lease,
  update_status_cas, eligible, claim, fenced, settle,
}
use outlook_dictionary.Outbox.Row.{event_key, event_of}
use outlook_dictionary.Outbox.History.{Call, run, step}
use outlook_dictionary.Outbox.Lease.{cas_once, acquire_excludes}

-- Event 1 is version 1 of message 7 of tenant 3, event 2 is version 1 of message 8.
abbrev pub first_event : OutboxEvent
first_event = new_event 1 3 7 1 Action.created 100

abbrev pub outbox : Events
outbox = first_event ∷ new_event 2 3 8 1 Action.created 100 ∷ []

pub outbox_keys : HasUniqueKeys event_key outbox
unfolding first
outbox_keys = (refl, (refl, tt))

-- Worker 50 acquires event 1 at 100 for 10, and 51 tries too early.
abbrev history : List Call
history = Call.acquires 1 50 100 10 ∷ Call.acquires 1 51 105 10 ∷ Call.completes 1 50 2 106 ∷ []

abbrev done_event : OutboxEvent
done_event = record first_event { status = done; lease_version = 2; completed_at = some 106 }

run-history : event_of 1 (run history outbox) ≡ some done_event
unfolding run first step update_status_cas update_where acquire_outbox_lease eligible claim fenced
    settle
run-history = refl

abbrev held_outbox : Events
held_outbox =
    record first_event {
      status = in_flight;
      locked_by = some 50;
      locked_until = some 110;
      lease_version = 2;
    }
    ∷ []

cas_once_example :
    (update_status_cas 1 50 2 pending
      (some Reason.enqueue_failed)
      (some 130)
      107
      (run history (update_status_cas 1 50 2 done none none 106 held_outbox).0)).1
    ≡ false
unfolding first rowcount update_status_cas fenced
cas_once_example =
    cas_once 1 2 50 done none none 106 50 pending (some Reason.enqueue_failed) (some 130) 107
      history held_outbox (refl, tt) refl

abbrev rivals : List Call
rivals = Call.acquires 1 51 110 10 ∷ Call.completes 1 51 1 108 ∷ Call.completes 2 51 2 109 ∷ []

acquire_excludes_example :
    let held = (acquire_outbox_lease 1 50 100 10 outbox).0 in
    (event_of 1 (run rivals held) ≡ event_of 1 held)
    × ((w' now' d' : ℕ)
        → now' ≤ 110
        → (acquire_outbox_lease 1 w' now' d' (run rivals held)).1 ≡ none)
unfolding first acquire_outbox_lease eligible claim
acquire_excludes_example =
    acquire_excludes 1 50 100 10 2 rivals outbox outbox_keys refl
      (omega arith, (inl (omega arith), (inl (omega arith), tt)))
