-- ===== src/Folder/Released.antt =====
-- The lease after a synchronisation: it is spent.
use mathlib.Core.Path.{subst}
use outlook_dictionary.Common.{ℕ, ◌≡◌, refl, ap, ◌∙◌, false, none, some, List, arith, ◌==◌}
use outlook_dictionary.Sql.Counts.{rowcount-cleared}
use outlook_dictionary.Sql.Keyed.{at, get}
use outlook_dictionary.Transaction.{run_statement, commit_all, IsSettledSession}
use outlook_dictionary.Sync.Lease.{
  SyncState, sync_state_key, Write, renews, releases, has_lease, written, write_fenced,
}
use outlook_dictionary.Folder.{Folder, folder_key, Store}
use outlook_dictionary.Folder.Page.{Locals}
use outlook_dictionary.Folder.Loop.{
  Call, Lease, Session, write, write_and_commit, loop, max_pages_per_sync, locals_of,
  acquire_and_loop, start_folder, sync_folder, new_sync_state,
}
use outlook_dictionary.Folder.Moves.{Moves, here}
use outlook_dictionary.Folder.Commits.{renew-again}
use outlook_dictionary.Folder.Passes.{stops, loop-Ends}
use outlook_dictionary.Folder.Refinement.{opened_session, IsAskedOf, stored, created, lease_asked}

-- No statement under the lease succeeds.
abbrev pub IsSpent : (id worker v : ℕ) → List SyncState → Type 0
IsSpent id worker v rows =
    (w : Write) (later : ℕ) → (write_fenced id worker v w later rows).1 ≡ false

module _ (id worker v : ℕ) where
  cleared-IsSpent :
      (w : Write) (now : ℕ) (rows : List SyncState)
      → ((s : SyncState) → (written w now s).locked_by ≡ none)
      → IsSpent id worker v (write_fenced id worker v w now rows).0
  unfolding write_fenced has_lease
  cleared-IsSpent w now rows clears w' later =
      ap (λ n. n == 1)
        (rowcount-cleared (at sync_state_key id (has_lease worker v)) (written w now) rows
          (λ s. ground (arith, clears s)))

  lost-IsSpent :
      (duration now : ℕ) (rows : List SyncState)
      → (write_fenced id worker v (renews duration) now rows).1 ≡ false
      → IsSpent id worker v (write_fenced id worker v (renews duration) now rows).0
  lost-IsSpent duration now rows lost w later =
      renew-again id worker v duration now w later rows ∙ lost

-- Nothing is pending, and the committed lease is spent.
pub record GivenBack (id worker v : ℕ) (s : Session) : Type 0 where
  pub settled : IsSettledSession s
  pub spent : IsSpent id worker v s.durable.sync_states

module _ (call : Call) (lease : Lease) where
  abbrev Given : Session → Type 0
  Given s = GivenBack lease.sync_state_id call.worker_id lease.lease_version s

  cleared-GivenBack :
      (w : Write) (now : ℕ) (s : Session)
      → ((r : SyncState) → (written w now r).locked_by ≡ none)
      → Given (write_and_commit call lease w now s)
  unfolding write_and_commit
  cleared-GivenBack w now s clears = record {
    settled = (refl, refl);
    spent =
        cleared-IsSpent lease.sync_state_id call.worker_id lease.lease_version w now
          s.seen.sync_states clears;
  }

  lost-GivenBack :
      (now : ℕ) (s : Session)
      → (write call lease (renews call.lease_duration) now s).1 ≡ false
      → Given (commit_all (write call lease (renews call.lease_duration) now s).0)
  unfolding write_and_commit
  lost-GivenBack now s lost = record {
    settled = (refl, refl);
    spent =
        lost-IsSpent lease.sync_state_id call.worker_id lease.lease_version call.lease_duration now
          s.seen.sync_states lost;
  }

  loop-GivenBack :
      (folder : Folder) (left : ℕ) (l : Locals) (s : Session)
      → call.release_raises ≡ false
      → IsSettledSession s
      → Given (loop call lease folder left l s).0
  unfolding written
  loop-GivenBack folder left l s sound settled =
      (loop-Ends call lease s.seen Given (λ now s. cleared-GivenBack releases now s (λ _. refl))
        (λ state now s. cleared-GivenBack (stops state) now s (λ _. refl))
        (λ now s _ lost. lost-GivenBack now s lost) (λ raises s. ground (arith, raises, sound))
        folder left l s
        (record { seen = here; durable = subst (Moves call lease s.seen) settled.1 here })).1

-- If the release after an exception does not itself raise, a synchronisation whose lease was granted,
-- on the state of the folder or on the one that it creates where there is none, leaves no transaction
-- open, and every later renewal, update or release under this lease is refused, however the
-- synchronisation ended.
pub sync_folder-GivenBack :
    (call : Call) (start : Store) (folder : Folder) (state : SyncState) (rows : List SyncState)
    (v : ℕ)
    → get folder_key call.mail_folder_id start.folders ≡ some folder
    → IsAskedOf call start state rows
    → (lease_asked call start state rows).1 ≡ some v
    → call.release_raises ≡ false
    → GivenBack state.id call.worker_id v (sync_folder call (opened_session start)).0
unfolding sync_folder start_folder acquire_and_loop run_statement
sync_folder-GivenBack call start folder _ _ v found (stored state known) acquired sound =
    rw (found, sync_folder)
      (rw (known, start_folder)
        (rw (acquired, acquire_and_loop)
          (loop-GivenBack call (record { sync_state_id = state.id; lease_version = v }) folder
            max_pages_per_sync (locals_of state) _ sound (refl, refl))))
sync_folder-GivenBack call start folder _ _ v found (created owner known missing) acquired sound =
    rw (known, sync_folder)
      (rw (missing, start_folder)
        (rw (acquired, acquire_and_loop)
          (loop-GivenBack call (record { sync_state_id = call.new_id; lease_version = v }) owner
            max_pages_per_sync (locals_of (new_sync_state call owner)) _ sound (refl, refl))))
