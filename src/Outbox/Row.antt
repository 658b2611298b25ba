-- ===== src/Outbox/Row.antt =====
-- What the repository's statements do to one row of the outbox, and to the rows of other events.
use outlook_dictionary.Common.{
  ℕ, ◌+◌, ◌≡◌, ◌≢◌, refl, ◌∙◌, ap, inl, inr, Bool, true, Option, some, arith, ◌==◌, Option-cases,
}
use outlook_dictionary.Sql.Keyed.{
  get, when, hits, keep_if, map_some, HasUniqueKeys, get-update, get-update_ne,
  update-HasUniqueKeys, rowcount-get, first-at,
}
use outlook_dictionary.Outbox.{
  Status, Reason, OutboxEvent, Events, eligible, claim, acquire_outbox_lease, fenced, settle,
  update_status_cas,
}

abbrev pub event_key : OutboxEvent → ℕ
event_key e = e.id

-- `outbox_repo.get(event_id)`
abbrev pub event_of : ℕ → Events → Option OutboxEvent
event_of = get event_key

claim_key : (w now d : ℕ) (e : OutboxEvent) → event_key (claim w now d e) ≡ event_key e
unfolding claim
claim_key w now d e = refl

settle_key :
    (now : ℕ) (s : Status) (r : Option Reason) (n : Option ℕ) (e : OutboxEvent)
    → event_key (settle now s r n e) ≡ event_key e
unfolding settle
settle_key now s r n e = refl

module _ (id w now d : ℕ) (rows : Events) where
  pub acquire-row :
      event_of id (acquire_outbox_lease id w now d rows).0
      ≡ map_some (when (eligible now) (claim w now d)) (event_of id rows)
  unfolding acquire_outbox_lease
  acquire-row = get-update event_key (claim w now d) (claim_key w now d) id (eligible now) rows

  pub acquire-row_ne :
      (j : ℕ) → j ≢ id → event_of j (acquire_outbox_lease id w now d rows).0 ≡ event_of j rows
  unfolding acquire_outbox_lease
  acquire-row_ne j h =
      get-update_ne event_key (claim w now d) (claim_key w now d) j id (eligible now) rows h

  pub acquire-result :
      HasUniqueKeys event_key rows
      → (acquire_outbox_lease id w now d rows).1
        ≡ map_some (λ e. e.lease_version + 1) (keep_if (eligible now) (event_of id rows))
  unfolding acquire_outbox_lease claim
  acquire-result u = ap (map_some _) (first-at event_key id (eligible now) rows u)

  pub acquire-HasUniqueKeys :
      HasUniqueKeys event_key rows
      → HasUniqueKeys event_key (acquire_outbox_lease id w now d rows).0
  unfolding acquire_outbox_lease
  acquire-HasUniqueKeys u =
      update-HasUniqueKeys event_key (claim w now d) (claim_key w now d) id (eligible now) rows u

module _ (id w v : ℕ) (s : Status) (r : Option Reason) (n : Option ℕ) (now : ℕ)
    (rows : Events) where
  pub cas-row :
      event_of id (update_status_cas id w v s r n now rows).0
      ≡ map_some (when (fenced w v) (settle now s r n)) (event_of id rows)
  unfolding update_status_cas
  cas-row = get-update event_key (settle now s r n) (settle_key now s r n) id (fenced w v) rows

  pub cas-row_ne :
      (j : ℕ) → j ≢ id → event_of j (update_status_cas id w v s r n now rows).0 ≡ event_of j rows
  unfolding update_status_cas
  cas-row_ne j h =
      get-update_ne event_key (settle now s r n) (settle_key now s r n) j id (fenced w v) rows h

  pub cas-result :
      HasUniqueKeys event_key rows
      → (update_status_cas id w v s r n now rows).1 ≡ (hits (fenced w v) (event_of id rows) == 1)
  unfolding update_status_cas
  cas-result u = ap (λ (c : ℕ). c == 1) (rowcount-get event_key id (fenced w v) rows u)

  pub cas-HasUniqueKeys :
      HasUniqueKeys event_key rows
      → HasUniqueKeys event_key (update_status_cas id w v s r n now rows).0
  unfolding update_status_cas
  cas-HasUniqueKeys u =
      update-HasUniqueKeys event_key (settle now s r n) (settle_key now s r n) id (fenced w v) rows
        u

-- A granted lease: the row was there and eligible, and the row is now the claimed one.
pub record Granted (id w now d v : ℕ) (rows : Events) (e : OutboxEvent) : Type 0 where
  pub found : event_of id rows ≡ some e
  pub open_for : eligible now e ≡ true
  pub version : v ≡ e.lease_version + 1
  pub claimed : event_of id (acquire_outbox_lease id w now d rows).0 ≡ some (claim w now d e)

pub acquire-Granted :
    (id w now d v : ℕ) (rows : Events)
    → HasUniqueKeys event_key rows
    → (acquire_outbox_lease id w now d rows).1 ≡ some v
    → (e : OutboxEvent) × Granted id w now d v rows e
acquire-Granted id w now d v rows u ok = elim (Option-cases (event_of id rows)) [
  | inl missing ↦ cc (acquire-result id w now d rows u)
  | inr (e, found) ↦
      let result =
        acquire-result id w now d rows u ∙ ap (λ o. map_some next (keep_if test o)) found in
      let eligible_row : eligible now e ≡ true = ground (arith, result) in
      (
        e,
        record {
          found = found;
          open_for = eligible_row;
          version = ground (arith, result);
          claimed = acquire-row id w now d rows ∙ rw found (rw eligible_row);
        },
      )
]
  where
    next : OutboxEvent → ℕ
    next e = e.lease_version + 1

    test : OutboxEvent → Bool
    test = eligible now

-- A call that hit: the row was there and held by that worker under that version.
pub cas_hit :
    (id w v : ℕ) (s : Status) (r : Option Reason) (n : Option ℕ) (now : ℕ) (rows : Events)
    → HasUniqueKeys event_key rows
    → (update_status_cas id w v s r n now rows).1 ≡ true
    → (e : OutboxEvent) × (event_of id rows ≡ some e)
      × (fenced w v e ≡ true)
      × (event_of id (update_status_cas id w v s r n now rows).0 ≡ some (settle now s r n e))
cas_hit id w v s r n now rows u ok = elim (Option-cases (event_of id rows)) [
  | inl missing ↦ cc (cas-result id w v s r n now rows u, ap count missing)
  | inr (e, found) ↦
      let held : fenced w v e ≡ true =
        ground (arith, cas-result id w v s r n now rows u, ap count found) in
      (e, found, held, cas-row id w v s r n now rows ∙ rw found (rw held))
]
  where
    count : Option OutboxEvent → Bool
    count o = hits (fenced w v) o == 1
