-- ===== src/Outbox/Lease.antt =====
-- The lease on an outbox event: mutual exclusion while it runs, and fencing of what comes late.
use outlook_dictionary.Common.{
  ℕ, ◌+◌, ◌≤◌, ◌<◌, ◌≡◌, ◌≢◌, refl, ◌∙◌, sym, ap, ◌⊎◌, true, false, Option, none, some, List, [],
  ◌∷◌, arith, All,
}
use outlook_dictionary.Sql.Keyed.{HasUniqueKeys}
use outlook_dictionary.Outbox.{
  Status, Reason, OutboxEvent, Events, eligible, claim, acquire_outbox_lease, fenced, settle,
  update_status_cas,
}
use outlook_dictionary.Outbox.Row.{
  event_key, event_of, acquire-result, acquire-HasUniqueKeys, cas-row, cas-result,
  cas-HasUniqueKeys, cas_hit, acquire-Granted,
}
use outlook_dictionary.Outbox.History.{
  Call, run, effect, life, run-life, life-keeps, run-HasUniqueKeys,
}

-- The lease `v` is over for good: a later one was granted, or it was settled.
abbrev pub IsSpent : ℕ → OutboxEvent → Type 0
IsSpent v e = (v < e.lease_version) ⊎ ((v ≡ e.lease_version) × (e.locked_by ≡ none))

pub effect-IsSpent : (v : ℕ) (c : Call) (e : OutboxEvent) → IsSpent v e → IsSpent v (effect c e)
unfolding effect
effect-IsSpent v (Call.acquires id w now d) e h = ground arith
effect-IsSpent v (Call.completes id w u now) e h = ground arith
effect-IsSpent v (Call.buries id w u r now) e h = ground arith
effect-IsSpent v (Call.retries id w u r next now) e h = ground arith

-- Fencing: once a lease is spent, then after any further history a call that presents it, by
-- whatever worker and with whatever values, hits no row and changes nothing of the event.
pub spent_fenced :
    (id v w : ℕ) (s : Status) (r : Option Reason) (n : Option ℕ) (now : ℕ) (cs : List Call)
    (rows : Events) (e : OutboxEvent)
    → HasUniqueKeys event_key rows
    → event_of id rows ≡ some e
    → IsSpent v e
    → let after = run cs rows in
      ((update_status_cas id w v s r n now after).1 ≡ false)
      × (event_of id (update_status_cas id w v s r n now after).0 ≡ event_of id after)
unfolding fenced
spent_fenced id v w s r n now cs rows e u found h =
    let spent = life-keeps (IsSpent v) (effect-IsSpent v) id cs e h in
    let row = run-life id cs rows e found in
    (
      cas-result id w v s r n now (run cs rows) (run-HasUniqueKeys cs rows u)
          ∙ rw row (ground arith),
      cas-row id w v s r n now (run cs rows) ∙ rw row (ground arith),
    )

-- A call that succeeds spends its lease, so of all the calls that present one lease to one event,
-- in any history, at most one succeeds.
pub cas_once :
    (id v w : ℕ) (s : Status) (r : Option Reason) (n : Option ℕ) (now : ℕ) (w' : ℕ) (s' : Status)
    (r' : Option Reason) (n' : Option ℕ) (now' : ℕ) (cs : List Call) (rows : Events)
    → HasUniqueKeys event_key rows
    → (update_status_cas id w v s r n now rows).1 ≡ true
    → (update_status_cas id w' v s' r' n' now'
        (run cs (update_status_cas id w v s r n now rows).0)).1
      ≡ false
unfolding fenced settle
cas_once id v w s r n now w' s' r' n' now' cs rows u ok =
    let (e, found, held, settled) = cas_hit id w v s r n now rows u ok in
    (spent_fenced id v w' s' r' n' now' cs (update_status_cas id w v s r n now rows).0
      (settle now s r n e) (cas-HasUniqueKeys id w v s r n now rows u) settled
      (ground (arith, held))).0

-- A call that does not end the lease of worker `w` and version `v`: an attempt to acquire before
-- the deadline, or a call that presents another worker or version.
abbrev pub IsRival : ℕ → ℕ → ℕ → Call → Type 0
IsRival w v deadline (Call.acquires _ _ now _) = now ≤ deadline
IsRival w v deadline (Call.completes _ w' v' _) = (w' ≢ w) ⊎ (v' ≢ v)
IsRival w v deadline (Call.buries _ w' v' _ _) = (w' ≢ w) ⊎ (v' ≢ v)
IsRival w v deadline (Call.retries _ w' v' _ _ _) = (w' ≢ w) ⊎ (v' ≢ v)

-- The lease of worker `w` and version `v` runs until the deadline.
pub record Leased (w v deadline : ℕ) (e : OutboxEvent) : Type 0 where
  pub holder : e.locked_by ≡ some w
  pub until : e.locked_until ≡ some deadline
  pub version : e.lease_version ≡ v

effect_rival :
    (w v deadline : ℕ) (c : Call) (e : OutboxEvent)
    → Leased w v deadline e
    → IsRival w v deadline c
    → effect c e ≡ e
unfolding effect
effect_rival w v deadline (Call.acquires id w' now d) e h rival = ground arith
effect_rival w v deadline (Call.completes id w' v' now) e h rival = ground arith
effect_rival w v deadline (Call.buries id w' v' r now) e h rival = ground arith
effect_rival w v deadline (Call.retries id w' v' r next now) e h rival = ground arith

pub life_rivals :
    (id w v deadline : ℕ) (cs : List Call) (e : OutboxEvent)
    → Leased w v deadline e
    → All (IsRival w v deadline) cs
    → life id cs e ≡ e
unfolding life
life_rivals id w v deadline [] e h rivals = refl
life_rivals id w v deadline (c ∷ cs) e h (rival, rivals) =
    ap (life id cs) (ground (arith, effect_rival w v deadline c e h rival))
    ∙ life_rivals id w v deadline cs e h rivals

-- Mutual exclusion: a worker that acquired a lease at `now` for `d`, and makes no call that settles the
-- event under it, keeps the row exactly as the acquisition left it, whatever rivals do until the
-- deadline `now + d`: attempts to acquire it by then, and settlements by other workers or under other
-- versions; and no attempt to acquire it by then succeeds.
pub acquire_excludes :
    (id w now d v : ℕ) (cs : List Call) (rows : Events)
    → HasUniqueKeys event_key rows
    → (acquire_outbox_lease id w now d rows).1 ≡ some v
    → All (IsRival w v (now + d)) cs
    → let held = (acquire_outbox_lease id w now d rows).0 in
      (event_of id (run cs held) ≡ event_of id held)
      × ((w' now' d' : ℕ)
          → now' ≤ now + d
          → (acquire_outbox_lease id w' now' d' (run cs held)).1 ≡ none)
unfolding eligible claim
acquire_excludes id w now d v cs rows u ok rivals =
    let (e, grant) = acquire-Granted id w now d v rows u ok in
    let held = (acquire_outbox_lease id w now d rows).0 in
    let e' = claim w now d e in
    let leased : Leased w v (now + d) e' = record {
      holder = refl;
      until = refl;
      version = sym grant.version;
    } in
    let stays = life_rivals id w v (now + d) cs e' leased rivals in
    let row = run-life id cs held e' grant.claimed ∙ ap some stays in
    (
      row ∙ sym grant.claimed,
      λ w' now' d' early.
          acquire-result id w' now' d' (run cs held)
            (run-HasUniqueKeys cs held (acquire-HasUniqueKeys id w now d rows u))
          ∙ rw row (ground arith),
    )
