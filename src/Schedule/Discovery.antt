-- ===== src/Schedule/Discovery.antt =====
-- `mail_sync_discovery_cron`, `_is_sync_due` and `_discover_folders`.
use outlook_dictionary.Common.{
  ℕ, ◌+◌, Bool, true, false, ◌&&◌, ◌||◌, Option, none, some, List, [], ◌∷◌, ◌++◌, if◌then◌else◌,
  leb, ◌==◌, is_none, before,
}
use outlook_dictionary.Sql.{select, first}
use outlook_dictionary.Credential.{Account, AccountStatus, active, syncing}
use outlook_dictionary.Sync.Lease.{SyncState, SyncStateValue}
use outlook_dictionary.Folder.{Folder}
use outlook_dictionary.Graph.Folders.{ProviderFolder}
use outlook_dictionary.Schedule.{JobQueue}
use outlook_dictionary.Schedule.Polling.{take_rows}

-- `status IN ('active', 'syncing')`
abbrev pub is_connected : AccountStatus → Bool
is_connected active = true
is_connected syncing = true
is_connected _ = false

-- ORDER BY last_sync_at NULLS FIRST
abbrev pub synced_before : Option ℕ → Option ℕ → Bool
synced_before none b = true
synced_before (some a) none = false
synced_before (some a) (some b) = leb a b

unfoldable pub insert_account : Account → List Account → List Account
insert_account a [] = a ∷ []
insert_account a (b ∷ rows) =
    if synced_before a.last_sync_at b.last_sync_at then a ∷ b ∷ rows else b ∷ insert_account a rows

unfoldable pub by_last_sync : List Account → List Account
unfolding insert_account
by_last_sync [] = []
by_last_sync (a ∷ rows) = insert_account a (by_last_sync rows)

-- The accounts of one tick.
unfoldable pub accounts_of_tick : (limit : ℕ) → List Account → List Account
unfolding by_last_sync take_rows
accounts_of_tick limit rows = take_rows limit (
    by_last_sync
      (select (λ a. a.is_active && (is_none a.deleted_at && is_connected a.status)) rows))

-- `_is_sync_due`
unfoldable pub is_sync_due : ℕ → Option SyncState → Bool
is_sync_due now none = true
is_sync_due now (some s) = elim s.state [
  | SyncStateValue.pending_initial_sync ↦ true
  | SyncStateValue.syncing ↦ is_none s.locked_until || before s.locked_until now
  | SyncStateValue.delta_tracking ↦ false
  | SyncStateValue.auth_required ↦ false
  | SyncStateValue.error ↦ false
]

unfoldable pub active_folders : ℕ → List Folder → List Folder
active_folders account_id folders =
    select (λ f. f.mail_account_id == account_id && f.is_active) folders

-- `states.get(folder.id)`
unfoldable pub state_of : ℕ → List SyncState → Option SyncState
state_of folder_id states = first (λ s. s.mail_folder_id == folder_id) states

module _ (now : ℕ) (states : List SyncState) where
  unfoldable pub due_of : List Folder → List ℕ
  unfolding is_sync_due state_of
  due_of [] = []
  due_of (f ∷ fs) = if is_sync_due now (state_of f.id states) then f.id ∷ due_of fs else due_of fs

  -- The accounts whose folders are to be discovered, and the folders that are due.
  unfoldable pub plan : List Folder → List Account → List Account × List ℕ
  unfolding due_of active_folders
  plan folders [] = ([], [])
  plan folders (a ∷ accounts) =
      let (unknown, due) = plan folders accounts in
      elim (active_folders a.id folders) [
        | [] ↦ (a ∷ unknown, due)
        | f ∷ fs ↦ (unknown, due_of (f ∷ fs) ++ due)
      ]

module _ (arq : JobQueue ℕ) where
  -- The loop over the folders that are due, with or without a queue: what it enqueues, and the
  -- folders that it also synchronises itself.
  unfoldable pub launch : (has_redis : Bool) → List ℕ → arq.Queue → arq.Queue × List ℕ
  launch has_redis [] q = (q, [])
  launch true (id ∷ ids) q =
      let (q', taken) = arq.enqueue_job q id in
      let (q'', runs) = launch true ids q' in (q'', (if taken then id ∷ runs else runs))
  launch false (id ∷ ids) q = let (q', runs) = launch false ids q in (q', id ∷ runs)

-- `provider_folder.provider_folder_id in existing`
unfoldable pub is_existing : (account_id provider_id : ℕ) → List Folder → Bool
is_existing account_id provider_id [] = false
is_existing account_id provider_id (f ∷ fs) =
    (f.mail_account_id == account_id && f.provider_folder_id == provider_id)
    || is_existing account_id provider_id fs

module _ (account : Account) (existing : List Folder) where
  -- The rows that `_discover_folders` adds, with the identifiers from `next_uuid` on.
  unfoldable pub new_folders : (next_uuid : ℕ) → List ProviderFolder → List Folder
  unfolding is_existing
  new_folders next_uuid [] = []
  new_folders next_uuid (p ∷ ps) =
      let later = new_folders (next_uuid + 1) ps in
      let same = new_folders next_uuid ps in
      if is_existing account.id p.provider_folder_id existing
      then same
      else record {
        id = next_uuid;
        tenant_id = account.tenant_id;
        mail_account_id = account.id;
        provider_folder_id = p.provider_folder_id;
        is_active = p.is_active;
      }
        ∷ later

  -- `_discover_folders`, once the provider has answered
  unfoldable pub discover_folders : (next_uuid : ℕ) → List ProviderFolder → List Folder
  unfolding new_folders
  discover_folders next_uuid provider_folders = existing ++ new_folders next_uuid provider_folders
