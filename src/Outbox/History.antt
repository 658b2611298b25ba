-- ===== src/Outbox/History.antt =====
-- Any history of repository calls, by any workers, on the outbox: what it does to one row.
use outlook_dictionary.Common.{
  ℕ, ◌≡◌, ◌≢◌, refl, ◌∙◌, ap, inl, inr, none, some, List, [], ◌∷◌, ◌++◌, arith, if◌then◌else◌, ◌==◌,
  Bool-cases, ==→eq,
}
use outlook_dictionary.Sql.Keyed.{when, map_some, HasUniqueKeys}
use outlook_dictionary.Outbox.{
  pending, done, dead_letter, Reason, OutboxEvent, Events, eligible, claim, acquire_outbox_lease,
  fenced, settle, update_status_cas,
}
use outlook_dictionary.Outbox.Row.{
  event_key, event_of, acquire-row, acquire-row_ne, cas-row, cas-row_ne, cas-HasUniqueKeys,
  acquire-HasUniqueKeys,
}

-- The repository calls that workers make, each on one event and at one instant. A worker settles
-- an event in three ways: done, dead letter, or pending again with a time for the next attempt.
pub data Call : Type 0 where
  acquires : (event worker now duration : ℕ) → Call
  completes : (event worker version now : ℕ) → Call
  buries : (event worker version : ℕ) → Reason → (now : ℕ) → Call
  retries : (event worker version : ℕ) → Reason → (next now : ℕ) → Call

unfoldable pub step : Call → Events → Events
step (acquires id w now d) rows = (acquire_outbox_lease id w now d rows).0
step (completes id w v now) rows = (update_status_cas id w v done none none now rows).0
step (buries id w v r now) rows = (update_status_cas id w v dead_letter (some r) none now rows).0
step (retries id w v r next now) rows =
    (update_status_cas id w v pending (some r) (some next) now rows).0

unfoldable pub run : List Call → Events → Events
run [] rows = rows
run (c ∷ cs) rows = run cs (step c rows)

pub run-append : (cs ds : List Call) (rows : Events) → run (cs ++ ds) rows ≡ run ds (run cs rows)
unfolding run
run-append [] ds rows = refl
run-append (c ∷ cs) ds rows = run-append cs ds (step c rows)

abbrev pub target : Call → ℕ
target (acquires id _ _ _) = id
target (completes id _ _ _) = id
target (buries id _ _ _ _) = id
target (retries id _ _ _ _ _) = id

-- What a call does to a row that it is aimed at.
unfoldable pub effect : Call → OutboxEvent → OutboxEvent
unfolding eligible claim fenced settle
effect (acquires id w now d) e = when (eligible now) (claim w now d) e
effect (completes id w v now) e = when (fenced w v) (settle now done none none) e
effect (buries id w v r now) e = when (fenced w v) (settle now dead_letter (some r) none) e
effect (retries id w v r next now) e = when (fenced w v) (settle now pending (some r) (some next)) e

step-row :
    (c : Call) (rows : Events)
    → event_of (target c) (step c rows) ≡ map_some (effect c) (event_of (target c) rows)
unfolding step effect
step-row (acquires id w now d) rows = acquire-row id w now d rows
step-row (completes id w v now) rows = cas-row id w v done none none now rows
step-row (buries id w v r now) rows = cas-row id w v dead_letter (some r) none now rows
step-row (retries id w v r next now) rows = cas-row id w v pending (some r) (some next) now rows

step-row_ne :
    (c : Call) (rows : Events) (j : ℕ) → j ≢ target c → event_of j (step c rows) ≡ event_of j rows
unfolding step
step-row_ne (acquires id w now d) rows j h = acquire-row_ne id w now d rows j h
step-row_ne (completes id w v now) rows j h = cas-row_ne id w v done none none now rows j h
step-row_ne (buries id w v r now) rows j h =
    cas-row_ne id w v dead_letter (some r) none now rows j h
step-row_ne (retries id w v r next now) rows j h =
    cas-row_ne id w v pending (some r) (some next) now rows j h

pub step-HasUniqueKeys :
    (c : Call) (rows : Events)
    → HasUniqueKeys event_key rows
    → HasUniqueKeys event_key (step c rows)
unfolding step
step-HasUniqueKeys (acquires id w now d) rows u = acquire-HasUniqueKeys id w now d rows u
step-HasUniqueKeys (completes id w v now) rows u =
    cas-HasUniqueKeys id w v done none none now rows u
step-HasUniqueKeys (buries id w v r now) rows u =
    cas-HasUniqueKeys id w v dead_letter (some r) none now rows u
step-HasUniqueKeys (retries id w v r next now) rows u =
    cas-HasUniqueKeys id w v pending (some r) (some next) now rows u

pub run-HasUniqueKeys :
    (cs : List Call) (rows : Events)
    → HasUniqueKeys event_key rows
    → HasUniqueKeys event_key (run cs rows)
unfolding run
run-HasUniqueKeys [] rows u = u
run-HasUniqueKeys (c ∷ cs) rows u = run-HasUniqueKeys cs (step c rows) (step-HasUniqueKeys c rows u)

-- A call on another event leaves the row alone.
abbrev pub effect_on : ℕ → Call → OutboxEvent → OutboxEvent
effect_on id c e = if target c == id then effect c e else e

step_found :
    (id : ℕ) (c : Call) (rows : Events) (e : OutboxEvent)
    → event_of id rows ≡ some e
    → event_of id (step c rows) ≡ some (effect_on id c e)
step_found id c rows e found = elim (Bool-cases (target c == id)) [
  | inl same ↦
      let aimed = ==→eq (target c) id same in
      rw same (rw aimed at (step-row c rows) ∙ ap (map_some (effect c)) found)
  | inr other ↦ rw other (step-row_ne c rows id (ground arith) ∙ found)
]

-- The life of one row under a history.
unfoldable pub life : ℕ → List Call → OutboxEvent → OutboxEvent
life id [] e = e
life id (c ∷ cs) e = life id cs (effect_on id c e)

-- The table's row after a history is the row's own life, whatever happens to the other rows.
pub run-life :
    (id : ℕ) (cs : List Call) (rows : Events) (e : OutboxEvent)
    → event_of id rows ≡ some e
    → event_of id (run cs rows) ≡ some (life id cs e)
unfolding run life
run-life id [] rows e found = found
run-life id (c ∷ cs) rows e found =
    run-life id cs (step c rows) (effect_on id c e) (step_found id c rows e found)

-- A property of the row that each call keeps holds after any history.
pub life-keeps :
    (P : OutboxEvent → Type 0)
    → ((c : Call) (e : OutboxEvent) → P e → P (effect c e))
    → (id : ℕ) (cs : List Call) (e : OutboxEvent) → P e
    → P (life id cs e)
unfolding life
life-keeps P keep id [] e p = p
life-keeps P keep id (c ∷ cs) e p =
    life-keeps P keep id cs (effect_on id c e) (elim (Bool-cases (target c == id)) [
      | inl same ↦ rw same (keep c e p)
      | inr other ↦ rw other p
    ])
