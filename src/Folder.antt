-- ===== src/Folder.antt =====
-- The synchronisation of one folder: the data of `SyncOrchestrator.sync_folder`
-- (apps/api/app/services/sync_orchestrator.py), with the errors of the provider
-- (packages/providers/src/mip_providers/errors.py).
pub mod Page
pub mod Loop
pub mod Moves
pub mod Passes
pub mod Refinement
pub mod Commits
pub mod Atomic
pub mod Covered
pub mod Released
pub mod Results
pub mod Truthful
pub mod Outcome
use outlook_dictionary.Common.{ℕ, Bool, true, false, not, ◌||◌, Option, none, some, List, ◌==◌}
use outlook_dictionary.Sync.Provider.{ProviderMessage, Db}
use outlook_dictionary.Sync.Lease.{SyncState, SyncStateValue}

-- `MailFolder`, as far as the synchronisation reads it.
pub record Folder : Type 0 where
  pub id : ℕ
  pub tenant_id : ℕ
  pub mail_account_id : ℕ
  pub provider_folder_id : ℕ
  pub is_active : Bool

abbrev pub folder_key : Folder → ℕ
folder_key f = f.id

-- All tables that one synchronisation uses.
pub record Store : Type 0 where
  pub folders : List Folder
  pub sync_states : List SyncState
  pub mail : Db

-- `ProviderDeltaPage`; removals by the id of the message, continuations are numbers, and 0 is the
-- empty text.
pub record DeltaPage : Type 0 where
  pub messages : List ProviderMessage
  pub removals : List ℕ
  pub next_continuation : Option ℕ
  pub has_more : Bool
  pub is_delta_checkpoint : Bool

-- The classes of the exceptions of a fetch. `other` is any class outside `ProviderError`.
pub data ErrorClass : Type 0 where
  provider_error auth_expired provider_permission provider_not_found : ErrorClass
  delta_cursor_expired provider_rate_limited other : ErrorClass

-- An exception: its class, and the attributes that are read.
pub record Raised : Type 0 where
  pub kind : ErrorClass
  pub status_code : Option ℕ
  pub retry_after : Option ℕ

-- `isinstance(err, ProviderError)`
abbrev pub is_provider_error : ErrorClass → Bool
is_provider_error other = false
is_provider_error provider_error = true
is_provider_error auth_expired = true
is_provider_error provider_permission = true
is_provider_error provider_not_found = true
is_provider_error delta_cursor_expired = true
is_provider_error provider_rate_limited = true

-- `isinstance(err, AuthExpiredError)`
abbrev pub is_auth_expired : ErrorClass → Bool
is_auth_expired auth_expired = true
is_auth_expired _ = false

-- `isinstance(err, (ProviderPermissionError, ProviderNotFoundError))`
abbrev pub is_denied : ErrorClass → Bool
is_denied provider_permission = true
is_denied provider_not_found = true
is_denied _ = false

-- `isinstance(err, ProviderRateLimitedError)`
abbrev pub is_rate_limited : ErrorClass → Bool
is_rate_limited provider_rate_limited = true
is_rate_limited _ = false

-- `isinstance(err, DeltaCursorExpiredError)`
abbrev pub is_cursor_expired : ErrorClass → Bool
is_cursor_expired delta_cursor_expired = true
is_cursor_expired _ = false

-- What `get_message_delta` does.
pub data Fetch : Type 0 where
  got : DeltaPage → Fetch
  raised : Raised → Fetch

-- `if token`, of an optional text
abbrev pub truthy : Option ℕ → Bool
truthy none = false
truthy (some t) = not (t == 0)

-- `page.is_delta_checkpoint or not page.has_more`
abbrev pub is_complete : DeltaPage → Bool
is_complete page = page.is_delta_checkpoint || not page.has_more

-- The `error` of a result, by the place that sets it.
pub data Failure : Type 0 where
  folder_not_found lease_acquisition_failed max_pagination_depth lease_lost : Failure
  token_refresh_failed loop_detected page_failed : Failure
  fetch_failed : Raised → Failure

-- `SyncResult`, less the id of the folder
pub record SyncResult : Type 0 where
  pub state : SyncStateValue
  pub messages_processed : ℕ
  pub messages_mutated : ℕ
  pub removals_processed : ℕ
  pub resync_triggered : Bool
  pub error : Option Failure
  pub retry_after : Option ℕ
