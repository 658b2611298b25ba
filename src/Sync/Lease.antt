-- ===== src/Sync/Lease.antt =====
-- The lease on a folder's synchronisation: `MailSyncStateRepository`
-- (apps/api/app/repositories/mail.py), on the rows of `MailSyncState`.
use outlook_dictionary.Common.{
  ℕ, ◌+◌, Bool, ◌&&◌, ◌||◌, Option, none, some, List, [], ◌∷◌, if◌then◌else◌, ◌==◌, is_none, holds,
  before,
}
use outlook_dictionary.Sql.{first, update_where, rowcount}
use outlook_dictionary.Sql.Keyed.{at, map_some}

-- `MailSyncStateValue`
pub data SyncStateValue : Type 0 where
  pending_initial_sync syncing delta_tracking auth_required error : SyncStateValue

-- `MailSyncState`
pub record SyncState : Type 0 where
  pub id : ℕ
  pub tenant_id : ℕ
  pub mail_folder_id : ℕ
  pub state : SyncStateValue
  pub sync_token : Option ℕ
  pub resync_generation : ℕ
  pub locked_by : Option ℕ
  pub locked_until : Option ℕ
  pub lease_version : ℕ
  pub updated_at : ℕ

abbrev pub sync_state_key : SyncState → ℕ
sync_state_key s = s.id

-- The WHERE test of `acquire_sync_lease`, less the id.
unfoldable pub is_free : ℕ → SyncState → Bool
is_free now s = is_none s.locked_by || before s.locked_until now

-- Its SET part.
unfoldable pub take : (worker now duration : ℕ) → SyncState → SyncState
take worker now duration s = record s {
  locked_by = some worker;
  locked_until = some (now + duration);
  lease_version = s.lease_version + 1;
}

-- `acquire_sync_lease`
unfoldable pub acquire_sync_lease :
    (id worker now duration : ℕ) → List SyncState → List SyncState × Option ℕ
acquire_sync_lease id worker now duration rows =
    let test = at sync_state_key id (is_free now) in
    (
      update_where test (take worker now duration) rows,
      map_some (λ s. (take worker now duration s).lease_version) (first test rows),
    )

-- The WHERE test of the fenced statements, less the id.
unfoldable pub has_lease : (worker lease_version : ℕ) → SyncState → Bool
has_lease worker lease_version s = holds s.locked_by worker && s.lease_version == lease_version

-- The arguments of `update_sync_state_cas` that say what to write.
pub record Update : Type 0 where
  pub state : SyncStateValue
  pub sync_token : Option ℕ
  pub resync_generation : Option ℕ
  pub clear_lock : Bool
  pub clear_sync_token : Bool

abbrev new_token : Update → Option ℕ → Option ℕ
new_token u stored = elim u.sync_token [
  | none ↦ if u.clear_sync_token then none else stored
  | some t ↦ some t
]

abbrev new_generation : Option ℕ → ℕ → ℕ
new_generation none stored = stored
new_generation (some g) stored = g

-- What a fenced statement writes.
pub data Write : Type 0 where
  renews : (duration : ℕ) → Write
  updates : Update → Write
  releases : Write

unfoldable pub written : Write → (now : ℕ) → SyncState → SyncState
written (renews duration) now s = record s {
  locked_until = some (now + duration);
  updated_at = now;
}
written (updates u) now s = record s {
  state = u.state;
  sync_token = new_token u s.sync_token;
  resync_generation = new_generation u.resync_generation s.resync_generation;
  locked_by = if u.clear_lock then none else s.locked_by;
  locked_until = if u.clear_lock then none else s.locked_until;
  updated_at = now;
}
written releases now s = record s { locked_by = none; locked_until = none; updated_at = now }

-- `renew_sync_lease`, `update_sync_state_cas` and `release_sync_lease`
unfoldable pub write_fenced :
    (id worker lease_version : ℕ) → Write → (now : ℕ) → List SyncState → List SyncState × Bool
write_fenced id worker lease_version w now rows =
    let test = at sync_state_key id (has_lease worker lease_version) in
    (update_where test (written w now) rows, rowcount test rows == 1)

-- The calls of all workers.
pub data LeaseCall : Type 0 where
  acquires : (id worker now duration : ℕ) → LeaseCall
  writes : (id worker lease_version : ℕ) → Write → (now : ℕ) → LeaseCall

unfoldable pub make : LeaseCall → List SyncState → List SyncState
make (acquires id worker now duration) rows = (acquire_sync_lease id worker now duration rows).0
make (writes id worker v w now) rows = (write_fenced id worker v w now rows).0

unfoldable pub make_all : List LeaseCall → List SyncState → List SyncState
make_all [] rows = rows
make_all (c ∷ cs) rows = make_all cs (make c rows)
