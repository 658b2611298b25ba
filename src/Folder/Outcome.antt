-- ===== src/Folder/Outcome.antt =====
-- The result of `sync_folder` as a whole.
use outlook_dictionary.Common.{ℕ, refl, Option, none, some, ◌++◌, ◌∷◌, [], arith}
use outlook_dictionary.Sql.Keyed.{get}
use outlook_dictionary.Transaction.{run_statement, commit_all}
use outlook_dictionary.Sync.Lease.{SyncState, error, acquire_sync_lease}
use outlook_dictionary.Folder.{
  Folder, folder_key, SyncResult, lease_acquisition_failed, folder_not_found,
}
use outlook_dictionary.Folder.Loop.{
  Call, Session, refused, new_sync_state, locals_of, max_pages_per_sync, loop, acquire_and_loop,
  start_folder, sync_folder, state_of_folder,
}
use outlook_dictionary.Folder.Truthful.{Tells, loop-Tells}
use outlook_dictionary.Folder.Results.{IsTruthful, refused-IsTruthful}

module _ (call : Call) where
  acquire_and_loop-Tells :
      (folder : Folder) (state : SyncState) (s : Session)
      → Tells (acquire_and_loop call folder state s)
  unfolding acquire_and_loop
  acquire_and_loop-Tells folder state s =
      tells
        (acquire_sync_lease state.id call.worker_id call.started_at call.lease_duration
          s.seen.sync_states).1
    where
      s' : Session
      s' =
          run_statement
            (record s.seen {
              sync_states =
                  (acquire_sync_lease state.id call.worker_id call.started_at call.lease_duration
                    s.seen.sync_states).0;
            })
            s

      tells :
          (acquired : Option ℕ)
          → Tells (elim acquired as (λ _. Session × SyncResult) [
            | none ↦ (s', refused state.state lease_acquisition_failed)
            | some v ↦
                loop call
                  (record { sync_state_id = state.id; lease_version = v })
                  folder
                  max_pages_per_sync
                  (locals_of state)
                  (commit_all s')
          ])
      tells none = refused-IsTruthful state.state lease_acquisition_failed
      tells (some v) =
          loop-Tells call (record { sync_state_id = state.id; lease_version = v }) folder
            max_pages_per_sync (locals_of state) (commit_all s')
            (record { counts = omega arith; no_resync = refl })

  start_folder-Tells : (folder : Folder) (s : Session) → Tells (start_folder call folder s)
  unfolding start_folder
  start_folder-Tells folder s = tells (state_of_folder call.mail_folder_id s.seen)
    where
      created : Session
      created =
          run_statement
            (record s.seen { sync_states = s.seen.sync_states ++ new_sync_state call folder ∷ [] })
            s

      tells :
          (o : Option SyncState)
          → Tells (elim o as (λ _. Session × SyncResult) [
            | some state ↦ acquire_and_loop call folder state s
            | none ↦ acquire_and_loop call folder (new_sync_state call folder) created
          ])
      tells none = acquire_and_loop-Tells folder (new_sync_state call folder) created
      tells (some state) = acquire_and_loop-Tells folder state s

  -- Whatever the provider and the other workers do, the result of a synchronisation counts no more
  -- changes than messages and removals, says that the folder is followed if it has no error,
  -- asks to wait only with an error, and never says that a resynchronisation took place.
  pub sync_folder-IsTruthful : (s : Session) → IsTruthful (sync_folder call s).1
  unfolding sync_folder
  sync_folder-IsTruthful s = tells (get folder_key call.mail_folder_id s.seen.folders)
    where
      tells :
          (o : Option Folder)
          → Tells (elim o as (λ _. Session × SyncResult) [
            | none ↦ (run_statement s.seen s, refused error folder_not_found)
            | some folder ↦ start_folder call folder (run_statement s.seen s)
          ])
      tells none = refused-IsTruthful error folder_not_found
      tells (some folder) = start_folder-Tells folder (run_statement s.seen s)
