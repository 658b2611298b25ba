-- ===== src/Examples/Credentials.antt =====
-- Two workers that refresh the credentials of one mail account.
use outlook_dictionary.Common.{false, ℕ, ◌+◌, ◌-◌, ◌≡◌, refl, true, none, some, [], ◌∷◌, arith}
use outlook_dictionary.Sql.{first}
use outlook_dictionary.Credential.{
  Account, Credential, active, has_refresh_lease, acquire_refresh_lease, is_unlocked, lock,
}
use outlook_dictionary.Credential.Refresh.{
  Vault, Encryption, TokenSet, issued, denied, tokens, Request, Surroundings, credential_of,
  complete, exchange, refresh_mail_account_credentials,
}
use outlook_dictionary.Credential.Fencing.{ChangesNothing, exchange-ChangesNothing}
use outlook_dictionary.Credential.Released.{IsRefreshSpent, opened_vault, refresh-IsGivenBack}
use outlook_dictionary.Credential.Stored.{
  as_stored, asking, refresh_mail_account_credentials-complete,
}

-- A cipher text is the text and seven.
abbrev cipher : Encryption
cipher = record {
  raises_for = λ t. false;
  encrypt = λ t. t + 7;
  decrypt = λ t. some (t - 7);
  key_id = 1;
}

decrypts : (t : ℕ) → cipher.decrypt (cipher.encrypt t) ≡ some t
decrypts t = ground arith

abbrev account : Account
account = record {
  id = 4;
  tenant_id = 3;
  is_active = true;
  deleted_at = none;
  last_sync_at = none;
  status = active;
  credential_generation = 1;
  refresh_locked_by = none;
  refresh_locked_until = none;
  refresh_lease_version = 1;
}

abbrev credential : Credential
credential = record {
  id = 9;
  mail_account_id = 4;
  encrypted_access_token = 18;
  encrypted_refresh_token = 19;
  token_expires_at = 100;
  scopes = none;
  encryption_key_id = 1;
}

abbrev vault : Vault
vault = record { accounts = account ∷ []; credentials = credential ∷ [] }

abbrev request : Request
request = record {
  mail_account_id = 4;
  worker_id = 50;
  expected_generation = some 1;
  lease_duration = 300;
}

abbrev new_tokens : TokenSet
new_tokens = record { access_token = 21; refresh_token = 0; expires_at = 500; scopes = [] }

-- Worker 51 takes the lease and refreshes while the provider is asked, which denies the token.
abbrev renewed_account : Account
renewed_account = record account { credential_generation = 2; refresh_lease_version = 3 }

abbrev overtaken_env : Surroundings
overtaken_env = record {
  earlier = λ t. t;
  now = 120;
  during = λ t. record t { accounts = renewed_account ∷ [] };
  answer = denied true;
}

-- Worker 50 has the lease 2.
abbrev held_account : Account
held_account = record account {
  refresh_locked_by = some 50;
  refresh_locked_until = some 420;
  refresh_lease_version = 2;
}

abbrev held_vault : Vault
held_vault = record vault { accounts = held_account ∷ [] }

refresh-IsGivenBack_example :
    IsRefreshSpent 4 50 2
      (refresh_mail_account_credentials cipher request overtaken_env
        (opened_vault vault)).0.durable.accounts
unfolding first acquire_refresh_lease is_unlocked lock
refresh-IsGivenBack_example =
    refresh-IsGivenBack cipher request overtaken_env vault account 2 1 (λ t. refl) refl refl refl

exchange-ChangesNothing_example :
    ChangesNothing
      (denied true)
      4
      renewed_account
      (record { accounts = renewed_account ∷ []; credentials = credential ∷ [] })
      (exchange cipher request overtaken_env 2 (opened_vault held_vault))
unfolding first credential_of
exchange-ChangesNothing_example =
    exchange-ChangesNothing cipher request overtaken_env 2 12 credential renewed_account
      (opened_vault held_vault) refl refl (refl, tt) refl (λ e. ground arith)

refresh_mail_account_credentials-complete_example :
    ((complete cipher request 2 credential (issued new_tokens) (opened_vault held_vault)).1
      ≡ tokens new_tokens)
    × (refresh_mail_account_credentials cipher
          (asking request 51 300 1)
          overtaken_env
          (complete cipher request 2 credential (issued new_tokens) (opened_vault held_vault)).0
        ≡ (
          record {
            seen =
                (complete cipher request 2 credential
                  (issued new_tokens)
                  (opened_vault held_vault)).0.durable;
            durable =
                (complete cipher request 2 credential
                  (issued new_tokens)
                  (opened_vault held_vault)).0.durable;
            in_transaction = true;
          },
          tokens (as_stored 12 credential new_tokens),
        ))
unfolding first credential_of has_refresh_lease
refresh_mail_account_credentials-complete_example =
    refresh_mail_account_credentials-complete cipher (λ t. refl) decrypts request 2 12 new_tokens
      (opened_vault held_vault) held_account credential (refl, tt) refl refl refl refl 51 300 1
      overtaken_env (omega arith)
