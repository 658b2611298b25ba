-- ===== src/Folder/Refinement.antt =====
-- `sync_folder` as a whole: what it commits, under which lease.
use outlook_dictionary.Common.{
  ◌≡◌, ◌⊎◌, inl, inr, refl, ℕ, true, false, Option, none, some, List, [], ◌∷◌, ◌++◌,
}
use outlook_dictionary.Sql.Keyed.{get}
use outlook_dictionary.Transaction.{run_statement, commit_all}
use outlook_dictionary.Sync.Lease.{SyncState, SyncStateValue, acquire_sync_lease}
use outlook_dictionary.Folder.{
  Folder, folder_key, Store, SyncResult, Failure, lease_acquisition_failed,
}
use outlook_dictionary.Folder.Loop.{
  Call, Session, loop, max_pages_per_sync, locals_of, refused, new_sync_state, acquire_and_loop,
  start_folder, sync_folder, state_of_folder,
}
use outlook_dictionary.Folder.Moves.{Moves, here}
use outlook_dictionary.Folder.Passes.{loop-Ends}

-- A session that was just opened.
abbrev pub opened_session : Store → Session
opened_session st = record { seen = st; durable = st; in_transaction = false }

module _ (call : Call) (start : Store) where
  -- The state on which the lease is asked for, and the rows at that time: the state of the folder,
  -- or a new one that is added to the rows where the folder has none.
  pub data IsAskedOf : SyncState → List SyncState → Type 0 where
    stored :
        (state : SyncState)
        → state_of_folder call.mail_folder_id start ≡ some state
        → IsAskedOf state start.sync_states
    created :
        (folder : Folder)
        → get folder_key call.mail_folder_id start.folders ≡ some folder
        → state_of_folder call.mail_folder_id start ≡ none
        → IsAskedOf
            (new_sync_state call folder)
            (start.sync_states ++ new_sync_state call folder ∷ [])

  abbrev pub lease_asked : SyncState → List SyncState → List SyncState × Option ℕ
  lease_asked state rows =
      acquire_sync_lease state.id call.worker_id call.started_at call.lease_duration rows

  -- Nothing is committed, as there is no such folder or the lease is refused; or what is committed is
  -- what moves under the lease that was granted make of the tables with that lease.
  abbrev pub IsRefined : Session × SyncResult → Type 0
  IsRefined (s, _) =
      (s.durable ≡ start)
        × ((get folder_key call.mail_folder_id start.folders ≡ none)
            ⊎ (state : SyncState) × (rows : List SyncState) × IsAskedOf state rows
              × ((lease_asked state rows).1 ≡ none))
      ⊎ (state : SyncState) × (rows : List SyncState) × (v : ℕ) × IsAskedOf state rows
        × ((lease_asked state rows).1 ≡ some v)
        × Moves call (record { sync_state_id = state.id; lease_version = v })
            (record start { sync_states = (lease_asked state rows).0 }) s.durable

  -- The session that has read, or created, the state.
  abbrev asking : List SyncState → Session
  asking rows = record {
    seen = record start { sync_states = rows };
    durable = start;
    in_transaction = true;
  }

  acquire_and_loop-IsRefined :
      (folder : Folder) (state : SyncState) (rows : List SyncState)
      → IsAskedOf state rows
      → IsRefined (acquire_and_loop call folder state (asking rows))
  unfolding acquire_and_loop run_statement commit_all
  acquire_and_loop-IsRefined folder state rows asked = go (lease_asked state rows).1 refl
    where
      go :
          (granted : Option ℕ)
          → (lease_asked state rows).1 ≡ granted
          → IsRefined (elim granted as (λ _. Session × SyncResult) [
            | none ↦ (
              run_statement
                  (record start { sync_states = (lease_asked state rows).0 })
                  (asking rows),
              refused state.state lease_acquisition_failed,
            )
            | some v ↦
                loop call
                  (record { sync_state_id = state.id; lease_version = v })
                  folder
                  max_pages_per_sync
                  (locals_of state)
                  (commit_all (
                    run_statement
                      (record start { sync_states = (lease_asked state rows).0 })
                      (asking rows)))
          ])
      go none refusal = inl (refl, inr (state, rows, asked, refusal))
      go (some v) granted = inr (
        state,
        rows,
        v,
        asked,
        granted,
        (loop-Ends call (record { sync_state_id = state.id; lease_version = v })
            (record start { sync_states = (lease_asked state rows).0 }) (λ _. Unit) (λ _ _. tt)
            (λ _ _ _. tt) (λ _ _ _ _. tt) (λ _ _. tt) folder max_pages_per_sync (locals_of state)
            (record {
              seen = record start { sync_states = (lease_asked state rows).0 };
              durable = record start { sync_states = (lease_asked state rows).0 };
              in_transaction = false;
            })
            (record { seen = here; durable = here })).0.durable,
      )

  start_folder-IsRefined :
      (folder : Folder)
      → get folder_key call.mail_folder_id start.folders ≡ some folder
      → IsRefined (start_folder call folder (asking start.sync_states))
  unfolding start_folder run_statement
  start_folder-IsRefined folder found = go (state_of_folder call.mail_folder_id start) refl
    where
      go :
          (o : Option SyncState)
          → state_of_folder call.mail_folder_id start ≡ o
          → IsRefined (elim o as (λ _. Session × SyncResult) [
            | some state ↦ acquire_and_loop call folder state (asking start.sync_states)
            | none ↦
                acquire_and_loop call folder
                  (new_sync_state call folder)
                  (asking (start.sync_states ++ new_sync_state call folder ∷ []))
          ])
      go (some state) here_is =
          acquire_and_loop-IsRefined folder state start.sync_states (stored state here_is)
      go none missing =
          acquire_and_loop-IsRefined folder (new_sync_state call folder)
            (start.sync_states ++ new_sync_state call folder ∷ []) (created folder found missing)

  -- A synchronisation commits nothing, and then there is no such folder or the lease is refused on
  -- its state, which is created where it is missing; or else the lease is granted, and what it
  -- commits, however it ends, is what some sequence of moves makes of the tables with that lease:
  -- statements of this worker under this very lease, the commits of others during the calls of the
  -- provider, and whole pages with their cursor under the lease.
  pub sync_folder-IsRefined : IsRefined (sync_folder call (opened_session start))
  unfolding sync_folder run_statement
  sync_folder-IsRefined = go (get folder_key call.mail_folder_id start.folders) refl
    where
      go :
          (o : Option Folder)
          → get folder_key call.mail_folder_id start.folders ≡ o
          → IsRefined (elim o as (λ _. Session × SyncResult) [
            | none ↦
                (asking start.sync_states, refused SyncStateValue.error Failure.folder_not_found)
            | some folder ↦ start_folder call folder (asking start.sync_states)
          ])
      go none missing = inl (refl, inl missing)
      go (some folder) found = start_folder-IsRefined folder found
