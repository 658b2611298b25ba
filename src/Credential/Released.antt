-- ===== src/Credential/Released.antt =====
-- The refresh lease after a refresh: it is spent.
use outlook_dictionary.Common.{
  ℕ, ◌≡◌, refl, sym, ap, ◌∙◌, Bool, true, false, Option, none, some, List, arith, ◌==◌, choose,
  choose_by,
}
use outlook_dictionary.Sql.{update_where, rowcount}
use outlook_dictionary.Sql.Counts.{rowcount-update, rowcount-cleared}
use outlook_dictionary.Sql.Keyed.{at, get}
use outlook_dictionary.Transaction.{commit_all, meanwhile}
use outlook_dictionary.Credential.{
  Account, account_key, Credential, reauth_required, has_refresh_lease, unlock, finalized,
  acquire_refresh_lease, release_refresh_lease, finalize_refresh_lease,
}
use outlook_dictionary.Credential.Refresh.{
  Vault, VaultSession, Encryption, TokenSet, is_refused, ProviderAnswer, issued, denied, Refreshed,
  Request, Surroundings, credential_of, release_and_commit, require_reauth, complete, exchange,
  recheck, stored_tokens, is_newer, raises, credentials_missing, undecryptable,
  acquire_and_exchange, overtaken, refresh_account, refresh_mail_account_credentials,
}

-- Nothing succeeds under the lease.
abbrev pub IsRefreshSpent : (id worker v : ℕ) → List Account → Type 0
IsRefreshSpent id worker v rows =
    ((finalize_refresh_lease id worker v rows).1 ≡ false)
    × ((release_refresh_lease id worker v rows).1 ≡ false)

module _ (id worker v : ℕ) where
  abbrev held : Account → Bool
  held = at account_key id (has_refresh_lease worker v)

  uncounted-IsRefreshSpent :
      (rows : List Account) → (rowcount held rows == 1) ≡ false → IsRefreshSpent id worker v rows
  unfolding finalize_refresh_lease release_refresh_lease
  uncounted-IsRefreshSpent rows e = (e, e)

  cleared-IsRefreshSpent :
      (f : Account → Account) (rows : List Account)
      → ((a : Account) → (f a).refresh_locked_by ≡ none)
      → IsRefreshSpent id worker v (update_where held f rows)
  unfolding has_refresh_lease
  cleared-IsRefreshSpent f rows clears =
      uncounted-IsRefreshSpent (update_where held f rows)
        (ap (λ n. n == 1) (rowcount-cleared held f rows (λ a. ground (arith, clears a))))

module _ (enc : Encryption) (accepts : (t : ℕ) → enc.raises_for t ≡ false) (req : Request)
    (v : ℕ) where
  abbrev IsGivenBack : VaultSession × Refreshed → Type 0
  IsGivenBack (s, _) = IsRefreshSpent req.mail_account_id req.worker_id v s.durable.accounts

  release-spent :
      (s : VaultSession)
      → IsRefreshSpent req.mail_account_id req.worker_id v
          (release_and_commit enc req v s).durable.accounts
  unfolding release_and_commit release_refresh_lease unlock
  release-spent s =
      cleared-IsRefreshSpent req.mail_account_id req.worker_id v unlock s.seen.accounts (λ _. refl)

  -- The note that the account needs a login leaves the locks.
  require_reauth-spent :
      (s : VaultSession)
      → IsRefreshSpent req.mail_account_id req.worker_id v s.seen.accounts
      → IsRefreshSpent req.mail_account_id req.worker_id v
          (require_reauth enc req s).durable.accounts
  unfolding require_reauth finalize_refresh_lease has_refresh_lease
  require_reauth-spent s spent = uncounted-IsRefreshSpent req.mail_account_id req.worker_id v _ (
      ap (λ n. n == 1)
        (rowcount-update (held req.mail_account_id req.worker_id v)
          (λ a. a.id == req.mail_account_id) (λ a. record a { status = reauth_required })
          s.seen.accounts (λ _. refl))
      ∙ spent.0)

  accepted : (ts : TokenSet) → is_refused enc ts ≡ false
  accepted ts = ground (arith, accepts ts.access_token, accepts ts.refresh_token)

  complete-IsGivenBack :
      (cred : Credential) (answer : ProviderAnswer) (s : VaultSession)
      → s.seen ≡ s.durable
      → IsGivenBack (complete enc req v cred answer s)
  unfolding complete release_and_commit finalize_refresh_lease finalized
  complete-IsGivenBack cred (denied names_grant) s same =
      choose
        (λ (s : VaultSession).
          IsRefreshSpent req.mail_account_id req.worker_id v s.durable.accounts)
        names_grant _ _ (require_reauth-spent (release_and_commit enc req v s) (release-spent s))
        (release-spent s)
  complete-IsGivenBack cred (issued ts) s same = rw (accepted ts) (
      choose_by IsGivenBack
        (rowcount (held req.mail_account_id req.worker_id v) s.seen.accounts == 1) _ _
        (λ _.
          cleared-IsRefreshSpent req.mail_account_id req.worker_id v finalized s.seen.accounts
            (λ _. refl))
        (λ stale. uncounted-IsRefreshSpent req.mail_account_id req.worker_id v s.durable.accounts (
          ap (λ t. rowcount (held req.mail_account_id req.worker_id v) t.accounts == 1) (sym same)
          ∙ stale)))

  module _ (env : Surroundings) where
    exchange-IsGivenBack : (s : VaultSession) → IsGivenBack (exchange enc req env v s)
    unfolding exchange meanwhile
    exchange-IsGivenBack s = go (credential_of req.mail_account_id s.seen.credentials)
      where
        asked : VaultSession
        asked = meanwhile env.during (commit_all s)

        decrypted :
            (cred : Credential) (o : Option ℕ)
            → IsGivenBack (elim o as (λ _. VaultSession × Refreshed) [
              | none ↦ (release_and_commit enc req v s, raises undecryptable)
              | some _ ↦ complete enc req v cred env.answer asked
            ])
        decrypted cred none = release-spent s
        decrypted cred (some t) = complete-IsGivenBack cred env.answer asked refl

        go :
            (o : Option Credential)
            → IsGivenBack (elim o as (λ _. VaultSession × Refreshed) [
              | none ↦ (release_and_commit enc req v s, raises credentials_missing)
              | some cred ↦ elim (enc.decrypt cred.encrypted_refresh_token) [
                | none ↦ (release_and_commit enc req v s, raises undecryptable)
                | some _ ↦ complete enc req v cred env.answer asked
              ]
            ])
        go none = release-spent s
        go (some cred) = decrypted cred (enc.decrypt cred.encrypted_refresh_token)

    recheck-IsGivenBack :
        (generation : ℕ) (s : VaultSession) → IsGivenBack (recheck enc req env v generation s)
    unfolding recheck
    recheck-IsGivenBack generation s =
        choose IsGivenBack (is_newer generation req.expected_generation) _ _
          (go (credential_of req.mail_account_id s'.seen.credentials)) (exchange-IsGivenBack s)
      where
        s' : VaultSession
        s' = release_and_commit enc req v s

        go :
            (o : Option Credential)
            → IsGivenBack (elim o as (λ _. VaultSession × Refreshed) [
              | none ↦ exchange enc req env v s'
              | some cred ↦ (s', stored_tokens enc cred)
            ])
        go none = exchange-IsGivenBack s'
        go (some cred) = release-spent s

-- A session that was just opened.
abbrev pub opened_vault : Vault → VaultSession
opened_vault t = record { seen = t; durable = t; in_transaction = false }

-- If the encryption raises for no text, and the account that was loaded is not yet of a newer
-- generation than the caller expects, a refresh that acquires the lease gives it back on every path,
-- whatever the provider answers and whatever others commit meanwhile: no statement under the lease
-- succeeds afterwards.
pub refresh-IsGivenBack :
    (enc : Encryption) (req : Request) (env : Surroundings) (start : Vault) (account : Account)
    (v generation : ℕ)
    → ((t : ℕ) → enc.raises_for t ≡ false)
    → get account_key req.mail_account_id start.accounts ≡ some account
    → is_newer account.credential_generation req.expected_generation ≡ false
    → (acquire_refresh_lease req.mail_account_id req.worker_id env.now req.lease_duration
        (env.earlier start).accounts).1
      ≡ some (v, generation)
    → IsRefreshSpent req.mail_account_id req.worker_id v
        (refresh_mail_account_credentials enc req env (opened_vault start)).0.durable.accounts
unfolding refresh_mail_account_credentials refresh_account acquire_and_exchange overtaken
refresh-IsGivenBack enc req env start account v generation accepts found old acquired =
    rw (found, refresh_mail_account_credentials)
      (rw (old, refresh_account)
        (rw (acquired, acquire_and_exchange)
          (recheck-IsGivenBack enc accepts req v env generation locked)))
  where
    locked : VaultSession
    locked = record {
      seen = record (env.earlier start) {
        accounts =
            (acquire_refresh_lease req.mail_account_id req.worker_id env.now req.lease_duration
              (env.earlier start).accounts).0;
      };
      durable = env.earlier start;
      in_transaction = true;
    }
