-- ===== src/Schedule/Ticks.antt =====
-- What a tick of the outbox poll finds, and what the next tick adds.
use outlook_dictionary.Common.{
  ℕ, zero, suc, ◌≡◌, inl, inr, true, some, List, [], ◌∷◌, map, arith, Bool-cases, All, All-map,
  is_some,
}
use outlook_dictionary.Sql.{select, first}
use outlook_dictionary.Sql.Keyed.{at}
use outlook_dictionary.Outbox.{OutboxEvent, Events, eligible, acquire_outbox_lease}
use outlook_dictionary.Schedule.{JobQueue}
use outlook_dictionary.Schedule.Polling.{
  is_discoverable, take_rows, discover_outbox_events, lease_version_of, OutboxJob,
}

-- The test of the discovery and the test of the lease are one.
is_discoverable-eligible : (now : ℕ) (e : OutboxEvent) → is_discoverable now e ≡ eligible now e
unfolding is_discoverable eligible
is_discoverable-eligible now e = ground arith

-- The row of the key can be acquired.
abbrev IsFound : ℕ → Events → OutboxEvent → Type 0
IsFound now rows e =
    is_some (first (at (λ (e : OutboxEvent). e.id) e.id (eligible now)) rows) ≡ true

-- A row that is selected is found among the rows of its key.
selected-IsFound :
    (now : ℕ) (rows : Events) → All (IsFound now rows) (select (is_discoverable now) rows)
unfolding select first
selected-IsFound now [] = tt
selected-IsFound now (r ∷ rows) = elim (Bool-cases (is_discoverable now r)) [
  | inl found ↦
      rw found
        (ground (arith, is_discoverable-eligible now r, found), rest (selected-IsFound now rows))
  | inr passed_over ↦ rw passed_over (rest (selected-IsFound now rows))
]
  where
    rest :
        All (IsFound now rows) (select (is_discoverable now) rows)
        → All (IsFound now (r ∷ rows)) (select (is_discoverable now) rows)
    rest h =
        All-map (IsFound now rows) (IsFound now (r ∷ rows)) (select (is_discoverable now) rows)
          (λ e h. ground (arith, h)) h

All-take_rows :
    (P : OutboxEvent → Type 0) (limit : ℕ) (rows : List OutboxEvent)
    → All P rows
    → All P (take_rows limit rows)
unfolding take_rows
All-take_rows P zero rows h = tt
All-take_rows P (suc n) [] h = tt
All-take_rows P (suc n) (e ∷ rows) h = (h.0, All-take_rows P n rows h.1)

All-ids :
    (P : ℕ → Type 0) (rows : List OutboxEvent)
    → All (λ e. P e.id) rows
    → All P (map (λ (e : OutboxEvent). e.id) rows)
All-ids P [] h = tt
All-ids P (e ∷ rows) h = (h.0, All-ids P rows h.1)

-- Every event that a poll discovers can be acquired at the same instant: the test of the discovery
-- and the test of the lease do not drift apart.
discovered_acquired :
    (now limit worker duration : ℕ) (events : Events)
    → All
        (λ id. is_some (acquire_outbox_lease id worker now duration events).1 ≡ true)
        (discover_outbox_events now limit events)
unfolding discover_outbox_events acquire_outbox_lease
discovered_acquired now limit worker duration events =
    All-ids (λ id. is_some (acquire_outbox_lease id worker now duration events).1 ≡ true)
      (take_rows limit (select (is_discoverable now) events))
      (All-take_rows _ limit (select (is_discoverable now) events) (
        All-map _ _ (select (is_discoverable now) events) (λ e h. ground (arith, h))
          (selected-IsFound now events)))

module _ (arq : JobQueue OutboxJob) (events : Events) where
  -- The queue holds the current claim of the event, if the event is there.
  abbrev pub IsHeld : arq.Queue → ℕ → Type 0
  IsHeld q id = (v : ℕ) → lease_version_of id events ≡ some v → arq.holds q (id, v) ≡ true
