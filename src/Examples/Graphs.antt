-- ===== src/Examples/Graphs.antt =====
-- Responses of the Graph API.
use outlook_dictionary.Common.{ℕ, ◌≡◌, refl, none, some, [], ◌∷◌, map, arith, if◌then◌else◌, ◌==◌}
use outlook_dictionary.Sync.Provider.{unset}
use outlook_dictionary.Folder.Loop.{Lease, on_error}
use outlook_dictionary.Graph.{raise_for_status}
use outlook_dictionary.Graph.Statuses.{by_status, on_error-by_status}
use outlook_dictionary.Graph.Folders.{
  FolderItem, FolderResponse, FolderReply, responds, end, page, get_folders, listed, folder_of,
  get_folders-Pages,
}
use outlook_dictionary.Examples.Folders.{call, locals, start}
use outlook_dictionary.Folder.Refinement.{opened_session}

abbrev lease : Lease
lease = record { sync_state_id = 1; lease_version = 2 }

on_error-by_status_example :
    on_error call lease (call.rounds 3) (raise_for_status 410 none) locals (opened_session start)
    ≡ by_status call lease (call.rounds 3) 410 none locals (opened_session start)
on_error-by_status_example =
    on_error-by_status call lease (call.rounds 3) 410 none locals (opened_session start)

abbrev item : ℕ → FolderItem
item id = record { id = id; display_name = unset; parent_folder_id = some (48 ∷ []) }

abbrev first_response : FolderResponse
first_response = record {
  status_code = 200;
  retry_after = none;
  value = item 1 ∷ [];
  next_link = some 6;
}

abbrev last_response : FolderResponse
last_response = record {
  status_code = 200;
  retry_after = none;
  value = item 2 ∷ [];
  next_link = none;
}

-- The address 5 leads to the address 6, which is the last.
abbrev client : ℕ → FolderReply
client url = if url == 5 then responds first_response else responds last_response

get_folders-Pages_example : get_folders client 2 5 ≡ listed (map folder_of (item 1 ∷ item 2 ∷ []))
get_folders-Pages_example =
    get_folders-Pages client 2 5 (item 1 ∷ item 2 ∷ []) 2
      (page 5 first_response (item 2 ∷ []) 1 refl refl (page 6 last_response [] 0 refl refl end))
      (omega arith)
