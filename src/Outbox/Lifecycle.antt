-- ===== src/Outbox/Lifecycle.antt =====
-- The life cycle of an outbox event: PENDING, IN_FLIGHT under a lease, DONE or DEAD_LETTER.
use outlook_dictionary.Common.{
  ℕ, ◌<◌, ◌≡◌, refl, ◌∙◌, ap, Bool, true, false, none, some, List, [], ◌∷◌, arith, is_some,
}
use outlook_dictionary.Sql.Keyed.{HasUniqueKeys}
use outlook_dictionary.Outbox.{
  Status, pending, in_flight, done, dead_letter, OutboxEvent, Events, is_open, is_done, new_event,
  Action, eligible, acquire_outbox_lease,
}
use outlook_dictionary.Outbox.Row.{event_key, event_of, acquire-result}
use outlook_dictionary.Outbox.History.{
  Call, run, effect, life, run-life, life-keeps, run-HasUniqueKeys,
}

abbrev is_in_flight : Status → Bool
is_in_flight in_flight = true
is_in_flight pending = false
is_in_flight done = false
is_in_flight dead_letter = false

-- The columns of an event agree with its status.
pub record IsConsistent (e : OutboxEvent) : Type 0 where
  pub lock_iff_in_flight : is_some e.locked_by ≡ is_in_flight e.status
  pub lock_has_deadline : is_some e.locked_until ≡ is_some e.locked_by
  pub completed_iff_done : is_some e.completed_at ≡ is_done e.status
  pub failures_explained : is_some e.last_error ≡ true → 0 < e.attempt_count
  pub dead_has_failed : e.status ≡ dead_letter → is_some e.last_error ≡ true

pub new_event-IsConsistent :
    (id tenant aggregate version : ℕ) (action : Action) (now : ℕ)
    → IsConsistent (new_event id tenant aggregate version action now)
new_event-IsConsistent id tenant aggregate version action now = ground arith

effect-IsConsistent : (c : Call) (e : OutboxEvent) → IsConsistent e → IsConsistent (effect c e)
unfolding effect
effect-IsConsistent (Call.acquires id w now d) e h = ground arith
effect-IsConsistent (Call.completes id w v now) e h = ground arith
effect-IsConsistent (Call.buries id w v r now) e h = ground arith
effect-IsConsistent (Call.retries id w v r next now) e h = ground arith

-- Whatever calls workers make, in any order, on any events: a consistent row stays in the table,
-- and stays consistent.
pub run-IsConsistent :
    (id : ℕ) (cs : List Call) (rows : Events) (e : OutboxEvent)
    → event_of id rows ≡ some e
    → IsConsistent e
    → (e' : OutboxEvent) × (event_of id (run cs rows) ≡ some e') × IsConsistent e'
run-IsConsistent id cs rows e found h = (
  life id cs e,
  run-life id cs rows e found,
  life-keeps IsConsistent effect-IsConsistent id cs e h,
)

effect_final :
    (c : Call) (e : OutboxEvent) → IsConsistent e → is_open e.status ≡ false → effect c e ≡ e
unfolding effect
effect_final (Call.acquires id w now d) e h final = ground arith
effect_final (Call.completes id w v now) e h final = ground arith
effect_final (Call.buries id w v r now) e h final = ground arith
effect_final (Call.retries id w v r next now) e h final = ground arith

life_final :
    (id : ℕ) (cs : List Call) (e : OutboxEvent)
    → IsConsistent e
    → is_open e.status ≡ false
    → life id cs e ≡ e
unfolding life
life_final id [] e h final = refl
life_final id (c ∷ cs) e h final =
    ap (life id cs) (ground (arith, effect_final c e h final)) ∙ life_final id cs e h final

-- DONE and DEAD_LETTER are final: no history of calls changes any column of such a row, and no
-- worker can acquire its lease again.
pub run_final :
    (id : ℕ) (cs : List Call) (rows : Events) (e : OutboxEvent)
    → HasUniqueKeys event_key rows
    → event_of id rows ≡ some e
    → IsConsistent e
    → is_open e.status ≡ false
    → (event_of id (run cs rows) ≡ some e)
      × ((w now d : ℕ) → (acquire_outbox_lease id w now d (run cs rows)).1 ≡ none)
unfolding eligible
run_final id cs rows e u found h final = (
  stays,
  λ w now d.
      acquire-result id w now d (run cs rows) (run-HasUniqueKeys cs rows u)
      ∙ rw stays (ground arith),
)
  where
    stays : event_of id (run cs rows) ≡ some e
    stays = run-life id cs rows e found ∙ ap some (life_final id cs e h final)
