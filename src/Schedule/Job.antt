-- ===== src/Schedule/Job.antt =====
-- `sync_mailbox_job`.
use outlook_dictionary.Common.{◌≡◌, true, not, Option, none, some, List, if◌then◌else◌}
use outlook_dictionary.Sql.Keyed.{get}
use outlook_dictionary.Transaction.{run_statement}
use outlook_dictionary.Credential.{Account, account_key}
use outlook_dictionary.Sync.Lease.{SyncStateValue, auth_required, delta_tracking}
use outlook_dictionary.Folder.{Folder, folder_key, Store, Failure}
use outlook_dictionary.Folder.Loop.{Call, Session, sync_folder}
use outlook_dictionary.Folder.Refinement.{opened_session}

-- What `_load_access_token` does, in sessions of its own.
pub data TokenLoad : Type 0 where
  loaded unconfigured failed : TokenLoad

-- What the job does: it returns a state or None, or raises `WorkerConfigurationError` or an
-- `AttributeError`.
pub data JobResult : Type 0 where
  skipped : JobResult
  state_is : SyncStateValue → JobResult
  configuration_error attribute_error : JobResult

-- What `folder.mail_account` gives: the class `MailFolder` maps no such attribute, so that it is
-- there only on an object that has been given one.
pub data Attribute : Type 0 where
  absent_attribute : Attribute
  attribute_is : Option Account → Attribute

-- The counter that the job increments at its end.
pub data Metric : Type 0 where
  success failure_metric reauth_needed no_metric : Metric

-- The end of the job, at the state and the error of the synchronisation.
unfoldable pub metric_of : SyncStateValue → Option Failure → Metric
metric_of auth_required failure = reauth_needed
metric_of SyncStateValue.error failure = failure_metric
metric_of _ none = success
metric_of _ (some f) = failure_metric

module _ (accounts : List Account) (attribute : Attribute) (load : Account → TokenLoad)
    (call : Call) where
  -- The orchestrator is given the refresh service.
  abbrev pub call_with_service : Call
  call_with_service = record call { has_auth_service = true }

  -- With the account that was found.
  abbrev pub with_token : TokenLoad → Session → Session × (JobResult × Metric)
  with_token loaded s =
      let (s', r) = sync_folder call_with_service s in
      (s', (state_is r.state, metric_of r.state r.error))
  with_token unconfigured s = (s, (configuration_error, no_metric))
  with_token failed s = (s, (state_is auth_required, reauth_needed))

  abbrev pub with_account : Option Account → Session → Session × (JobResult × Metric)
  with_account none s = (s, (skipped, failure_metric))
  with_account (some a) s = with_token (load a) s

  -- The account of the object, or else of the table.
  abbrev pub with_attribute : Folder → Attribute → Session → Session × (JobResult × Metric)
  with_attribute f absent_attribute s = (s, (attribute_error, no_metric))
  with_attribute f (attribute_is none) s =
      with_account (get account_key f.mail_account_id accounts) s
  with_attribute f (attribute_is (some a)) s = with_account (some a) s

  abbrev pub with_folder : Option Folder → Session → Session × (JobResult × Metric)
  with_folder none s = (s, (skipped, no_metric))
  with_folder (some f) s =
      if not f.is_active then (s, (skipped, no_metric)) else with_attribute f attribute s

  unfoldable pub sync_mailbox_job : Session → Session × (JobResult × Metric)
  unfolding run_statement sync_folder metric_of
  sync_mailbox_job s =
      with_folder (get folder_key call.mail_folder_id s.seen.folders) (run_statement s.seen s)

  -- What the metrics and the result of the job mean.
  pub record IsSound (start : Store) (r : Session × (JobResult × Metric)) : Type 0 where
    pub followed :
        r.1.1 ≡ success
        → (r.1.0 ≡ state_is delta_tracking)
          × (r.0 ≡ (sync_folder call_with_service (opened_session start)).0)
    pub stopped : r.1.1 ≡ reauth_needed → r.1.0 ≡ state_is auth_required
    pub idle : r.1.0 ≡ skipped → r.0.durable ≡ start

module _ (accounts : List Account) (attribute : Attribute) (load : Account → TokenLoad)
    (call : Call) (start : Store) where
  abbrev Sound : Session × (JobResult × Metric) → Type 0
  Sound r = IsSound accounts attribute load call start r

  abbrev read : Session
  read = record { seen = start; durable = start; in_transaction = true }
