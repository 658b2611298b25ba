-- ===== src/Examples/Folders.antt =====
-- The synchronisation of a folder with one stored message.
use outlook_dictionary.Common.{refl, true, false, none, some, [], ◌∷◌}
use outlook_dictionary.Sql.{first}
use outlook_dictionary.Sync.Lease.{SyncState, delta_tracking, acquire_sync_lease, is_free, take}
use outlook_dictionary.Folder.{Folder, Store, DeltaPage, got}
use outlook_dictionary.Folder.Page.{Locals, process_page}
use outlook_dictionary.Folder.Loop.{Call, state_of_folder, sync_folder}
use outlook_dictionary.Folder.Refinement.{opened_session, IsRefined, stored, sync_folder-IsRefined}
use outlook_dictionary.Folder.Atomic.{Applied, process_page-Applied}
use outlook_dictionary.Folder.Covered.{sync_folder-IsCovered}
use outlook_dictionary.Folder.Released.{GivenBack, sync_folder-GivenBack}
use outlook_dictionary.Folder.Results.{IsTruthful}
use outlook_dictionary.Folder.Outcome.{sync_folder-IsTruthful}
use outlook_dictionary.Sync.Invariant.{IsCovered}
use outlook_dictionary.Examples.Syncs.{scope, db, db-IsCovered, read_message}

abbrev pub folder : Folder
folder = record {
  id = 5;
  tenant_id = 3;
  mail_account_id = 4;
  provider_folder_id = 55;
  is_active = true;
}

abbrev pub state : SyncState
state = record {
  id = 1;
  tenant_id = 3;
  mail_folder_id = 5;
  state = delta_tracking;
  sync_token = some 60;
  resync_generation = 1;
  locked_by = none;
  locked_until = none;
  lease_version = 1;
  updated_at = 40;
}

abbrev pub start : Store
start = record { folders = folder ∷ []; sync_states = state ∷ []; mail = db }

-- The page has the message, which is read now, and is the last one.
abbrev last_page : DeltaPage
last_page = record {
  messages = read_message ∷ [];
  removals = [];
  next_continuation = some 61;
  has_more = false;
  is_delta_checkpoint = true;
}

-- Every call of the provider gives the page, and nobody else is at work.
abbrev pub call : Call
call = record {
  mail_folder_id = 5;
  worker_id = 50;
  lease_duration = 300;
  has_auth_service = false;
  started_at = 100;
  new_id = 2;
  rounds = λ n. record {
    now = 101;
    others = λ st. st;
    answer = got last_page;
    refresh = record { succeeds = false; leaves_transaction = false };
    second_answer = got last_page;
  };
  ended_at = 102;
  release_raises = false;
}

-- The tables with the lease of worker 50.
abbrev locked : Store
locked = record start {
  sync_states =
      record state { locked_by = some 50; locked_until = some 400; lease_version = 2 } ∷ [];
}

abbrev pub locals : Locals
locals = record {
  sync_token = some 60;
  resync_generation = 1;
  current_state = delta_tracking;
  resync_triggered = false;
  refresh_attempted = false;
  seen_tokens = [];
  total_processed = 0;
  total_mutated = 0;
  total_removals = 0;
}

sync_folder-IsRefined_example : IsRefined call start (sync_folder call (opened_session start))
sync_folder-IsRefined_example = sync_folder-IsRefined call start

sync_folder-IsCovered_example : IsCovered (sync_folder call (opened_session start)).0.durable.mail
sync_folder-IsCovered_example = sync_folder-IsCovered call (λ _ _ h. h) start db-IsCovered

sync_folder-GivenBack_example : GivenBack 1 50 2 (sync_folder call (opened_session start)).0
unfolding first state_of_folder acquire_sync_lease is_free take
sync_folder-GivenBack_example =
    sync_folder-GivenBack call start folder state (state ∷ []) 2 refl (stored state refl) refl refl

sync_folder-IsTruthful_example : IsTruthful (sync_folder call (opened_session start)).1
sync_folder-IsTruthful_example = sync_folder-IsTruthful call (opened_session start)

process_page-Applied_example :
    Applied scope 1 50 2 300 last_page locked
      (process_page scope 1 50 2 300 last_page locals locked).1
process_page-Applied_example =
    process_page-Applied scope 1 50 2 300 last_page locals locked db-IsCovered
