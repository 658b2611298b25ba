-- ===== src/Credential/Refresh.antt =====
-- `ProviderAuthService.refresh_mail_account_credentials`
-- (apps/api/app/services/identity_provider.py).
use outlook_dictionary.Common.{
  ℕ, Bool, false, not, ◌&&◌, ◌||◌, Option, none, some, List, [], ◌∷◌, if◌then◌else◌, ltb, ◌==◌,
  is_some,
}
use outlook_dictionary.Sql.{first, update_where}
use outlook_dictionary.Sql.Keyed.{get}
use outlook_dictionary.Transaction.{Transaction, run_statement, commit_all, meanwhile}
use outlook_dictionary.Credential.{
  Account, account_key, Credential, reauth_required, acquire_refresh_lease, release_refresh_lease,
  finalize_refresh_lease,
}

-- The two tables.
pub record Vault : Type 0 where
  pub accounts : List Account
  pub credentials : List Credential

abbrev pub VaultSession : Type 0
VaultSession = Transaction Vault

-- `EncryptionService`: the texts for which `encrypt` raises, its value for the others, and `decrypt`,
-- where `none` is the exception of a text that cannot be decrypted.
pub record Encryption : Type 0 where
  pub raises_for : ℕ → Bool
  pub encrypt : ℕ → ℕ
  pub decrypt : ℕ → Option ℕ
  pub key_id : ℕ

-- `ProviderCredentialSet`; 0 is the empty text.
pub record TokenSet : Type 0 where
  pub access_token : ℕ
  pub refresh_token : ℕ
  pub expires_at : ℕ
  pub scopes : List ℕ

-- The answer of the provider to a refresh token: new tokens, or an exception, of which it matters
-- whether its text has "invalid_grant", "revoked" or "expired".
pub data ProviderAnswer : Type 0 where
  issued : TokenSet → ProviderAnswer
  denied : (names_grant : Bool) → ProviderAnswer

pub data RefreshError : Type 0 where
  account_not_found lease_owned credentials_missing undecryptable : RefreshError
  refresh_denied stale_refresh cipher_failed encryption_failed : RefreshError

pub data Refreshed : Type 0 where
  tokens : TokenSet → Refreshed
  raises : RefreshError → Refreshed

-- The arguments of the call.
pub record Request : Type 0 where
  pub mail_account_id : ℕ
  pub worker_id : ℕ
  pub expected_generation : Option ℕ
  pub lease_duration : ℕ

-- What the surroundings do: what others commit before the lease is acquired and during the call of
-- the provider, the clock, and the answer of the provider.
pub record Surroundings : Type 0 where
  pub earlier : Vault → Vault
  pub now : ℕ
  pub during : Vault → Vault
  pub answer : ProviderAnswer

-- `expected_generation is not None and generation > expected_generation`
abbrev pub is_newer : ℕ → Option ℕ → Bool
is_newer generation none = false
is_newer generation (some expected) = ltb expected generation

-- `scopes or []`
abbrev pub scopes_or_empty : Option (List ℕ) → List ℕ
scopes_or_empty none = []
scopes_or_empty (some scopes) = scopes

-- `_get_provider_credential_by_account`
unfoldable pub credential_of : ℕ → List Credential → Option Credential
credential_of account_id rows = first (λ c. c.mail_account_id == account_id) rows

-- What others commit between two statements of a session that has not written anything.
unfoldable pub overtaken : (Vault → Vault) → VaultSession → VaultSession
overtaken others s = record s { seen = others s.seen; durable = others s.durable }

-- `if new_tokens.scopes: cred.scopes = new_tokens.scopes`
abbrev pub kept_scopes : List ℕ → Option (List ℕ) → Option (List ℕ)
kept_scopes [] stored = stored
kept_scopes (s ∷ scopes) stored = some (s ∷ scopes)

module _ (enc : Encryption) where
  -- The tokens of a stored credential.
  unfoldable pub stored_tokens : Credential → Refreshed
  stored_tokens cred = elim (enc.decrypt cred.encrypted_access_token) [
    | none ↦ raises cipher_failed
    | some access ↦ elim (enc.decrypt cred.encrypted_refresh_token) [
      | none ↦ raises cipher_failed
      | some refresh ↦ tokens (record {
        access_token = access;
        refresh_token = refresh;
        expires_at = cred.token_expires_at;
        scopes = scopes_or_empty cred.scopes;
      })
    ]
  ]

  -- Step 5: one of the new tokens cannot be encrypted.
  abbrev pub is_refused : TokenSet → Bool
  is_refused ts =
      enc.raises_for ts.access_token
      || not (ts.refresh_token == 0) && enc.raises_for ts.refresh_token

  -- Step 6: the columns that new tokens write.
  unfoldable pub renewed_credential : TokenSet → Credential → Credential
  renewed_credential ts cred = record cred {
    encrypted_access_token = enc.encrypt ts.access_token;
    encrypted_refresh_token =
        if ts.refresh_token == 0
        then cred.encrypted_refresh_token
        else enc.encrypt ts.refresh_token;
    token_expires_at = ts.expires_at;
    scopes = kept_scopes ts.scopes cred.scopes;
    encryption_key_id = enc.key_id;
  }

  module _ (req : Request) where
    -- `release_refresh_lease`, and the commit.
    unfoldable pub release_and_commit : ℕ → VaultSession → VaultSession
    unfolding run_statement commit_all
    release_and_commit v s = commit_all (
        run_statement
          (record s.seen {
            accounts =
                (release_refresh_lease req.mail_account_id req.worker_id v s.seen.accounts).0;
          })
          s)

    -- `account.status = "reauth_required"`, and the commit.
    unfoldable pub require_reauth : VaultSession → VaultSession
    unfolding run_statement commit_all
    require_reauth s = commit_all (
        run_statement
          (record s.seen {
            accounts =
                update_where (λ a. a.id == req.mail_account_id)
                  (λ a. record a { status = reauth_required }) s.seen.accounts;
          })
          s)

    -- Steps 5 and 6: the answer of the provider. Where the encryption raises, the lease is not given
    -- back.
    unfoldable pub complete :
        ℕ → Credential → ProviderAnswer → VaultSession → VaultSession × Refreshed
    unfolding renewed_credential release_and_commit require_reauth
    complete v cred (denied names_grant) s =
        let s' = release_and_commit v s in
        ((if names_grant then require_reauth s' else s'), raises refresh_denied)
    complete v cred (issued ts) s =
        let (rows, cas_ok) =
          finalize_refresh_lease req.mail_account_id req.worker_id v s.seen.accounts in
        if is_refused ts
        then (s, raises encryption_failed)
        else if cas_ok
        then (
          commit_all (
              run_statement
                (record {
                  accounts = rows;
                  credentials =
                      update_where (λ c. c.id == cred.id) (renewed_credential ts)
                        s.seen.credentials;
                })
                s),
          tokens ts,
        )
        else (run_statement (record s.seen { accounts = rows }) s, raises stale_refresh)

    module _ (env : Surroundings) where
      -- Steps 3 and 4.
      unfoldable pub exchange : ℕ → VaultSession → VaultSession × Refreshed
      unfolding complete credential_of
      exchange v s = elim (credential_of req.mail_account_id s.seen.credentials) [
        | none ↦ (release_and_commit v s, raises credentials_missing)
        | some cred ↦ elim (enc.decrypt cred.encrypted_refresh_token) [
          | none ↦ (release_and_commit v s, raises undecryptable)
          | some _ ↦ complete v cred env.answer (meanwhile env.during (commit_all s))
        ]
      ]

      -- The generation is looked at again under the lease.
      unfoldable pub recheck : (v generation : ℕ) → VaultSession → VaultSession × Refreshed
      unfolding exchange stored_tokens
      recheck v generation s =
          if is_newer generation req.expected_generation
          then (let s' = release_and_commit v s in
              elim (credential_of req.mail_account_id s'.seen.credentials) [
                | none ↦ exchange v s'
                | some cred ↦ (s', stored_tokens cred)
              ])
          else exchange v s

      -- The lease is owned by another worker; the session still has the account that it loaded.
      unfoldable pub reload : Account → VaultSession → VaultSession × Refreshed
      unfolding stored_tokens credential_of
      reload account s =
          if is_some (get account_key req.mail_account_id s.seen.accounts)
            && is_newer account.credential_generation req.expected_generation
          then elim (credential_of req.mail_account_id s.seen.credentials) [
            | none ↦ (s, raises lease_owned)
            | some cred ↦ (s, stored_tokens cred)
          ]
          else (s, raises lease_owned)

      -- Step 2.
      unfoldable pub acquire_and_exchange : Account → VaultSession → VaultSession × Refreshed
      unfolding run_statement recheck reload
      acquire_and_exchange account s =
          let (rows, lease_info) =
            acquire_refresh_lease req.mail_account_id req.worker_id env.now req.lease_duration
              s.seen.accounts in
          let s' = run_statement (record s.seen { accounts = rows }) s in
          elim lease_info [
            | none ↦ reload account s'
            | some (v, generation) ↦ recheck v generation s'
          ]

      -- Step 1, with the account that was found.
      unfoldable pub refresh_account : Account → VaultSession → VaultSession × Refreshed
      unfolding acquire_and_exchange overtaken stored_tokens credential_of
      refresh_account account s =
          if is_newer account.credential_generation req.expected_generation
          then elim (credential_of req.mail_account_id s.seen.credentials) [
            | none ↦ acquire_and_exchange account (overtaken env.earlier s)
            | some cred ↦ (s, stored_tokens cred)
          ]
          else acquire_and_exchange account (overtaken env.earlier s)

      unfoldable pub refresh_mail_account_credentials : VaultSession → VaultSession × Refreshed
      unfolding run_statement refresh_account
      refresh_mail_account_credentials s =
          let s' = run_statement s.seen s in
          elim (get account_key req.mail_account_id s.seen.accounts) [
            | none ↦ (s', raises account_not_found)
            | some account ↦ refresh_account account s'
          ]
