-- ===== src/Credential/Fencing.antt =====
-- A refresh whose lease was taken over while the provider was called.
use outlook_dictionary.Common.{
  choose, ℕ, ◌≡◌, ◌≢◌, refl, sym, ap, ◌∙◌, true, false, some, List, [], ◌∷◌, arith, ◌==◌,
}
use outlook_dictionary.Sql.{first, update_where}
use outlook_dictionary.Sql.Keyed.{get, HasUniqueKeys, get-update, rowcount-get}
use outlook_dictionary.Transaction.{commit_all, meanwhile}
use outlook_dictionary.Credential.{
  Account, account_key, Credential, reauth_required, has_refresh_lease, unlock,
  release_refresh_lease, finalize_refresh_lease,
}
use outlook_dictionary.Credential.Refresh.{
  Vault, VaultSession, Encryption, ProviderAnswer, issued, denied, Refreshed, Request, Surroundings,
  credential_of, release_and_commit, require_reauth, complete, exchange, raises, RefreshError,
  refresh_denied, stale_refresh, encryption_failed, is_refused,
}

-- What the refresh leaves of an account whose lease is another's.
abbrev pub left_behind : ProviderAnswer → Account → Account
left_behind (issued ts) a = a
left_behind (denied false) a = a
left_behind (denied true) a = record a { status = reauth_required }

-- No tokens are returned, no credential is changed, and of the account the status at most.
pub record ChangesNothing (answer : ProviderAnswer) (id : ℕ) (a : Account) (t : Vault)
    (r : VaultSession × Refreshed) : Type 0 where
  pub raised : (e : RefreshError) × (r.1 ≡ raises e)
  pub credentials : r.0.durable.credentials ≡ t.credentials
  pub account : get account_key id r.0.durable.accounts ≡ some (left_behind answer a)

module _ (id worker v : ℕ) (rows : List Account) (a : Account)
    (keys : HasUniqueKeys account_key rows) (found : get account_key id rows ≡ some a)
    (other : a.refresh_lease_version ≢ v) where
  finalize_refused : (finalize_refresh_lease id worker v rows).1 ≡ false
  unfolding finalize_refresh_lease has_refresh_lease
  finalize_refused =
      ground
        (arith, rowcount-get account_key id (has_refresh_lease worker v) rows keys, found, other)

  release_refused : get account_key id (release_refresh_lease id worker v rows).0 ≡ some a
  unfolding release_refresh_lease has_refresh_lease unlock
  release_refused = ground (
    arith,
    get-update account_key unlock (λ _. refl) id (has_refresh_lease worker v) rows,
    found,
    other,
  )

noted :
    (id : ℕ) (rows : List Account) (a : Account)
    → get account_key id rows ≡ some a
    → get account_key id
        (update_where (λ a. a.id == id) (λ a. record a { status = reauth_required }) rows)
      ≡ some (record a { status = reauth_required })
unfolding first update_where
noted id [] a found = cc
noted id (r ∷ rows) a found = ground (arith, noted id rows a)

complete-ChangesNothing :
    (enc : Encryption) (req : Request) (v : ℕ) (cred : Credential) (answer : ProviderAnswer)
    (s : VaultSession) (a : Account)
    → s.seen ≡ s.durable
    → HasUniqueKeys account_key s.seen.accounts
    → get account_key req.mail_account_id s.seen.accounts ≡ some a
    → a.refresh_lease_version ≢ v
    → ChangesNothing answer req.mail_account_id a s.durable (complete enc req v cred answer s)
unfolding complete release_and_commit require_reauth
complete-ChangesNothing enc req v cred (denied true) s a same keys found other = record {
  raised = (refresh_denied, refl);
  credentials = ap (λ t. t.credentials) same;
  account =
      noted req.mail_account_id _ a
        (release_refused req.mail_account_id req.worker_id v s.seen.accounts a keys found other);
}
complete-ChangesNothing enc req v cred (denied false) s a same keys found other = record {
  raised = (refresh_denied, refl);
  credentials = ap (λ t. t.credentials) same;
  account = release_refused req.mail_account_id req.worker_id v s.seen.accounts a keys found other;
}
complete-ChangesNothing enc req v cred (issued ts) s a same keys found other =
    choose (ChangesNothing (issued ts) req.mail_account_id a s.durable) (is_refused enc ts) _ _
      (record { raised = (encryption_failed, refl); credentials = refl; account = kept })
      (rw
        (
          finalize_refused req.mail_account_id req.worker_id v s.seen.accounts a keys found other,
          complete,
        )
        (record { raised = (stale_refresh, refl); credentials = refl; account = kept }))
  where
    kept : get account_key req.mail_account_id s.durable.accounts ≡ some a
    kept = ap (λ t. get account_key req.mail_account_id t.accounts) (sym same) ∙ found

-- If the lease of the account was taken over while the provider was called, the refresh returns no
-- tokens, and leaves the credentials and the account as the others left them; but if the provider
-- denied the refresh token for good, the account is marked as in need of a login.
pub exchange-ChangesNothing :
    (enc : Encryption) (req : Request) (env : Surroundings) (v plain : ℕ) (cred : Credential)
    (a : Account) (s : VaultSession)
    → credential_of req.mail_account_id s.seen.credentials ≡ some cred
    → enc.decrypt cred.encrypted_refresh_token ≡ some plain
    → HasUniqueKeys account_key (env.during s.seen).accounts
    → get account_key req.mail_account_id (env.during s.seen).accounts ≡ some a
    → a.refresh_lease_version ≢ v
    → ChangesNothing env.answer req.mail_account_id a (env.during s.seen) (exchange enc req env v s)
unfolding exchange commit_all meanwhile
exchange-ChangesNothing enc req env v plain cred a s stored plain_text keys found other =
    rw (stored, exchange)
      (rw plain_text (
        complete-ChangesNothing enc req v cred env.answer (meanwhile env.during (commit_all s)) a
          refl keys found other))
