-- ===== src/Credential.antt =====
-- The credentials of a mail account: the tables `MailAccount` and `ProviderCredential`
-- (packages/models/src/mip_models/mail.py) and `MailAccountRepository`
-- (apps/api/app/repositories/mail.py), which holds the lease on a refresh.
pub mod Refresh
pub mod Fencing
pub mod Released
pub mod Stored
use outlook_dictionary.Common.{
  ℕ, ◌+◌, Bool, ◌&&◌, ◌||◌, Option, none, some, List, ◌==◌, is_none, holds, before,
}
use outlook_dictionary.Sql.{first, update_where, rowcount}
use outlook_dictionary.Sql.Keyed.{at, map_some}

-- The values of `MailAccount.status`.
pub data AccountStatus : Type 0 where
  active syncing error disconnected suspended reauth_required : AccountStatus

-- `MailAccount`, as far as the refresh and the schedule use it.
pub record Account : Type 0 where
  pub id : ℕ
  pub tenant_id : ℕ
  pub is_active : Bool
  pub deleted_at : Option ℕ
  pub last_sync_at : Option ℕ
  pub status : AccountStatus
  pub credential_generation : ℕ
  pub refresh_locked_by : Option ℕ
  pub refresh_locked_until : Option ℕ
  pub refresh_lease_version : ℕ

abbrev pub account_key : Account → ℕ
account_key a = a.id

-- `ProviderCredential`; cipher texts are numbers.
pub record Credential : Type 0 where
  pub id : ℕ
  pub mail_account_id : ℕ
  pub encrypted_access_token : ℕ
  pub encrypted_refresh_token : ℕ
  pub token_expires_at : ℕ
  pub scopes : Option (List ℕ)
  pub encryption_key_id : ℕ

-- The lock can be taken.
unfoldable pub is_unlocked : ℕ → Account → Bool
is_unlocked now a = is_none a.refresh_locked_by || before a.refresh_locked_until now

unfoldable pub lock : (worker now duration : ℕ) → Account → Account
lock worker now duration a = record a {
  refresh_locked_by = some worker;
  refresh_locked_until = some (now + duration);
  refresh_lease_version = a.refresh_lease_version + 1;
}

-- `acquire_refresh_lease`: the new lease version, and the generation of the credentials.
unfoldable pub acquire_refresh_lease :
    (id worker now duration : ℕ) → List Account → List Account × Option (ℕ × ℕ)
acquire_refresh_lease id worker now duration rows =
    let test = at account_key id (is_unlocked now) in
    (
      update_where test (lock worker now duration) rows,
      map_some (λ a. (a.refresh_lease_version + 1, a.credential_generation)) (first test rows),
    )

-- The WHERE test of the fenced statements, less the id.
unfoldable pub has_refresh_lease : (worker lease_version : ℕ) → Account → Bool
has_refresh_lease worker v a = holds a.refresh_locked_by worker && a.refresh_lease_version == v

unfoldable pub unlock : Account → Account
unlock a = record a { refresh_locked_by = none; refresh_locked_until = none }

-- `release_refresh_lease`
unfoldable pub release_refresh_lease :
    (id worker lease_version : ℕ) → List Account → List Account × Bool
release_refresh_lease id worker v rows =
    let test = at account_key id (has_refresh_lease worker v) in
    (update_where test unlock rows, rowcount test rows == 1)

unfoldable pub finalized : Account → Account
finalized a = record a {
  credential_generation = a.credential_generation + 1;
  refresh_locked_by = none;
  refresh_locked_until = none;
}

-- `finalize_refresh_lease`
unfoldable pub finalize_refresh_lease :
    (id worker lease_version : ℕ) → List Account → List Account × Bool
finalize_refresh_lease id worker v rows =
    let test = at account_key id (has_refresh_lease worker v) in
    (update_where test finalized rows, rowcount test rows == 1)
