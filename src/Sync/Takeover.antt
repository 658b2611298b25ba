-- ===== src/Sync/Takeover.antt =====
-- A lease on a synchronisation that was taken over is of no use any more.
use outlook_dictionary.Common.{
  ℕ, ◌<◌, ◌≡◌, refl, ◌∙◌, inl, inr, Bool, false, some, List, [], ◌∷◌, arith, ◌==◌, Bool-cases,
}
use outlook_dictionary.Sql.{update_where}
use outlook_dictionary.Sql.Keyed.{
  at, get, when, HasUniqueKeys, get-update, get-update_ne, update-HasUniqueKeys, rowcount-get,
  first-at,
}
use outlook_dictionary.Sync.Lease.{
  SyncState, sync_state_key, is_free, take, acquire_sync_lease, has_lease, Write, renews, updates,
  releases, written, write_fenced, LeaseCall, acquires, writes, make, make_all,
}

-- The row is there, and a later lease than `v` has been given.
pub record Superseded (id v : ℕ) (rows : List SyncState) : Type 0 where
  pub keys : HasUniqueKeys sync_state_key rows
  pub row : SyncState
  pub found : get sync_state_key id rows ≡ some row
  pub later : v < row.lease_version

written-id : (w : Write) (now : ℕ) (s : SyncState) → (written w now s).id ≡ s.id
unfolding written
written-id (renews d) now s = refl
written-id (updates u) now s = refl
written-id releases now s = refl

written-lease_version :
    (w : Write) (now : ℕ) (s : SyncState) → (written w now s).lease_version ≡ s.lease_version
unfolding written
written-lease_version (renews d) now s = refl
written-lease_version (updates u) now s = refl
written-lease_version releases now s = refl

-- An update of one row that keeps its id and does not lower its version.
update-Superseded :
    (id v k : ℕ) (g : SyncState → Bool) (f : SyncState → SyncState) (rows : List SyncState)
    → ((s : SyncState) → (f s).id ≡ s.id)
    → ((s : SyncState) → v < s.lease_version → v < (f s).lease_version)
    → Superseded id v rows
    → Superseded id v (update_where (at sync_state_key k g) f rows)
update-Superseded id v k g f rows keeps rises h = elim (Bool-cases (k == id)) [
  | inl same ↦ record {
    keys = update-HasUniqueKeys sync_state_key f keeps k g rows h.keys;
    row = when g f h.row;
    found = (ground (arith, get-update sync_state_key f keeps id g rows, h.found, same));
    later = ground (arith, rises h.row h.later, h.later);
  }
  | inr other ↦ record {
    keys = update-HasUniqueKeys sync_state_key f keeps k g rows h.keys;
    row = h.row;
    found = get-update_ne sync_state_key f keeps id k g rows (ground (arith, other)) ∙ h.found;
    later = h.later;
  }
]

make-Superseded :
    (id v : ℕ) (c : LeaseCall) (rows : List SyncState)
    → Superseded id v rows
    → Superseded id v (make c rows)
unfolding make acquire_sync_lease write_fenced take
make-Superseded id v (acquires k worker now d) rows h =
    update-Superseded id v k (is_free now) (take worker now d) rows (λ _. refl)
      (λ s later. omega (arith, later)) h
make-Superseded id v (writes k worker u w now) rows h =
    update-Superseded id v k (has_lease worker u) (written w now) rows (written-id w now)
      (λ s later. omega (arith, later, written-lease_version w now s)) h

make_all-Superseded :
    (id v : ℕ) (cs : List LeaseCall) (rows : List SyncState)
    → Superseded id v rows
    → Superseded id v (make_all cs rows)
unfolding make_all
make_all-Superseded id v [] rows h = h
make_all-Superseded id v (c ∷ cs) rows h =
    make_all-Superseded id v cs (make c rows) (make-Superseded id v c rows h)

acquire-Superseded :
    (id worker now duration v : ℕ) (rows : List SyncState) (s : SyncState)
    → HasUniqueKeys sync_state_key rows
    → get sync_state_key id rows ≡ some s
    → (acquire_sync_lease id worker now duration rows).1 ≡ some v
    → Superseded id s.lease_version (acquire_sync_lease id worker now duration rows).0
unfolding acquire_sync_lease take
acquire-Superseded id worker now duration v rows s keys found e = record {
  keys =
      update-HasUniqueKeys sync_state_key (take worker now duration) (λ _. refl) id (is_free now)
        rows keys;
  row = take worker now duration s;
  found = ground (
    arith,
    e,
    first-at sync_state_key id (is_free now) rows keys,
    get-update sync_state_key (take worker now duration) (λ _. refl) id (is_free now) rows,
    found,
  );
  later = omega arith;
}

refused :
    (id v worker : ℕ) (w : Write) (now : ℕ) (rows : List SyncState)
    → Superseded id v rows
    → ((write_fenced id worker v w now rows).1 ≡ false)
      × (get sync_state_key id (write_fenced id worker v w now rows).0 ≡ get sync_state_key id rows)
unfolding write_fenced has_lease
refused id v worker w now rows h = (
  ground (arith, rowcount-get sync_state_key id (has_lease worker v) rows h.keys, h.found, h.later),
  ground (
    arith,
    get-update sync_state_key (written w now) (written-id w now) id (has_lease worker v) rows,
    h.found,
    h.later,
  ),
)

-- Once a worker has acquired the lease of a synchronisation, no renewal, update or release under
-- the lease version that the row had before succeeds, by whatever worker and after whatever calls:
-- it answers False and leaves the row.
pub taken_lease_refuses :
    (id worker now duration v : ℕ) (rows : List SyncState) (s : SyncState)
    → HasUniqueKeys sync_state_key rows
    → get sync_state_key id rows ≡ some s
    → (acquire_sync_lease id worker now duration rows).1 ≡ some v
    → (cs : List LeaseCall) (earlier : ℕ) (w : Write) (later : ℕ)
    → (let after = make_all cs (acquire_sync_lease id worker now duration rows).0 in
        ((write_fenced id earlier s.lease_version w later after).1 ≡ false)
        × (get sync_state_key id (write_fenced id earlier s.lease_version w later after).0
            ≡ get sync_state_key id after))
taken_lease_refuses id worker now duration v rows s keys found e cs earlier w later =
    refused id s.lease_version earlier w later
      (make_all cs (acquire_sync_lease id worker now duration rows).0)
      (make_all-Superseded id s.lease_version cs (acquire_sync_lease id worker now duration rows).0
        (acquire-Superseded id worker now duration v rows s keys found e))
