-- ===== src/Credential/Stored.antt =====
-- The tokens that a refresh stores are the tokens that the next caller reads.
use mathlib.Core.Path.{subst}
use outlook_dictionary.Common.{
  ℕ, ◌+◌, ◌≤◌, ◌≡◌, refl, sym, ap, inl, inr, true, false, some, List, arith, ◌==◌, if◌then◌else◌,
  Bool-cases, ltb,
}
use outlook_dictionary.Sql.{update_where}
use outlook_dictionary.Sql.Keyed.{get, HasUniqueKeys, get-update, rowcount-get, first-update}
use outlook_dictionary.Transaction.{run_statement, commit_all}
use outlook_dictionary.Credential.{
  Account, account_key, Credential, has_refresh_lease, finalized, finalize_refresh_lease,
}
use outlook_dictionary.Credential.Refresh.{
  Vault, VaultSession, Encryption, TokenSet, is_refused, issued, Request, Surroundings,
  credential_of, complete, tokens, stored_tokens, renewed_credential, kept_scopes, scopes_or_empty,
  refresh_account, refresh_mail_account_credentials,
}

-- The tokens as they are stored: where the provider left out the refresh token or the scopes, the
-- earlier ones.
abbrev pub as_stored : (plain : ℕ) → Credential → TokenSet → TokenSet
as_stored plain cred ts = record {
  access_token = ts.access_token;
  refresh_token = if ts.refresh_token == 0 then plain else ts.refresh_token;
  expires_at = ts.expires_at;
  scopes = scopes_or_empty (kept_scopes ts.scopes cred.scopes);
}

-- A later call for the same account.
abbrev pub asking : Request → (worker duration expected : ℕ) → Request
asking req worker duration expected = record {
  mail_account_id = req.mail_account_id;
  worker_id = worker;
  expected_generation = some expected;
  lease_duration = duration;
}

module _ (enc : Encryption) (accepts : (t : ℕ) → enc.raises_for t ≡ false)
    (decrypts : (t : ℕ) → enc.decrypt (enc.encrypt t) ≡ some t) where
  renewed-tokens :
      (plain : ℕ) (cred : Credential) (ts : TokenSet)
      → enc.decrypt cred.encrypted_refresh_token ≡ some plain
      → stored_tokens enc (renewed_credential enc ts cred) ≡ tokens (as_stored plain cred ts)
  unfolding stored_tokens renewed_credential
  renewed-tokens plain cred ts readable = elim (Bool-cases (ts.refresh_token == 0)) [
    | inl left_out ↦ ground (arith, decrypts ts.access_token, readable, left_out)
    | inr given ↦ ground (arith, decrypts ts.access_token, decrypts ts.refresh_token, given)
  ]

  module _ (id worker v : ℕ) (rows : List Account) (a : Account)
      (keys : HasUniqueKeys account_key rows) (found : get account_key id rows ≡ some a)
      (held : has_refresh_lease worker v a ≡ true) where
    finalize_done : (finalize_refresh_lease id worker v rows).1 ≡ true
    unfolding finalize_refresh_lease
    finalize_done =
        ground
          (arith, rowcount-get account_key id (has_refresh_lease worker v) rows keys, found, held)

    finalize_found :
        get account_key id (finalize_refresh_lease id worker v rows).0 ≡ some (finalized a)
    unfolding finalize_refresh_lease finalized
    finalize_found = ground (
      arith,
      get-update account_key finalized (λ _. refl) id (has_refresh_lease worker v) rows,
      found,
      held,
    )

  credential_renewed :
      (account_id : ℕ) (ts : TokenSet) (cred : Credential) (rows : List Credential)
      → credential_of account_id rows ≡ some cred
      → credential_of account_id
          (update_where (λ c. c.id == cred.id) (renewed_credential enc ts) rows)
        ≡ some (renewed_credential enc ts cred)
  unfolding credential_of renewed_credential
  credential_renewed account_id ts cred rows stored = ground (
    arith,
    first-update (λ c. c.mail_account_id == account_id) (λ c. c.id == cred.id)
        (renewed_credential enc ts) rows (λ _. refl),
    stored,
  )

  module _ (req : Request) (v plain : ℕ) (ts : TokenSet) (s : VaultSession) (a : Account)
      (cred : Credential) (keys : HasUniqueKeys account_key s.seen.accounts)
      (found : get account_key req.mail_account_id s.seen.accounts ≡ some a)
      (held : has_refresh_lease req.worker_id v a ≡ true)
      (stored : credential_of req.mail_account_id s.seen.credentials ≡ some cred)
      (readable : enc.decrypt cred.encrypted_refresh_token ≡ some plain) where
    -- The tables after the refresh.
    abbrev renewed_vault : Vault
    renewed_vault = record {
      accounts = (finalize_refresh_lease req.mail_account_id req.worker_id v s.seen.accounts).0;
      credentials =
          update_where (λ c. c.id == cred.id) (renewed_credential enc ts) s.seen.credentials;
    }

    complete_commits : complete enc req v cred (issued ts) s ≡ (
      record { seen = renewed_vault; durable = renewed_vault; in_transaction = false },
      tokens ts,
    )
    unfolding complete run_statement commit_all
    complete_commits = rw accepted (
        rw
          (
            finalize_done req.mail_account_id req.worker_id v s.seen.accounts a keys found held,
            complete,
          )
          refl)
      where
        accepted : is_refused enc ts ≡ false
        accepted = ground (arith, accepts ts.access_token, accepts ts.refresh_token)

    later_call :
        (worker duration expected : ℕ) (env : Surroundings)
        → expected ≤ a.credential_generation
        → refresh_mail_account_credentials enc
            (asking req worker duration expected)
            env
            (record { seen = renewed_vault; durable = renewed_vault; in_transaction = false })
          ≡ (
            record { seen = renewed_vault; durable = renewed_vault; in_transaction = true },
            tokens (as_stored plain cred ts),
          )
    unfolding refresh_mail_account_credentials refresh_account run_statement finalized
    later_call worker duration expected env older =
        rw
          (
            finalize_found req.mail_account_id req.worker_id v s.seen.accounts a keys found held,
            refresh_mail_account_credentials,
          )
          (rw (newer, refresh_account)
            (rw
              (
                credential_renewed req.mail_account_id ts cred s.seen.credentials stored,
                refresh_account,
              )
              (ap
                (λ r. (
                  record { seen = renewed_vault; durable = renewed_vault; in_transaction = true },
                  r,
                ))
                (renewed-tokens plain cred ts readable))))
      where
        newer : ltb expected (a.credential_generation + 1) ≡ true
        newer = ground (arith, older)

    -- With an encryption that raises for no text and is undone by the decryption, what a refresh under
    -- its lease commits, the next caller that knows an earlier generation
    -- reads back, whatever the surroundings do: the same tokens, without a lease and without a
    -- change of the tables.
    pub refresh_mail_account_credentials-complete :
        (worker duration expected : ℕ) (env : Surroundings)
        → expected ≤ a.credential_generation
        → ((complete enc req v cred (issued ts) s).1 ≡ tokens ts)
          × (refresh_mail_account_credentials enc
                (asking req worker duration expected)
                env
                (complete enc req v cred (issued ts) s).0
              ≡ (
                record {
                  seen = (complete enc req v cred (issued ts) s).0.durable;
                  durable = (complete enc req v cred (issued ts) s).0.durable;
                  in_transaction = true;
                },
                tokens (as_stored plain cred ts),
              ))
    refresh_mail_account_credentials-complete worker duration expected env older =
        subst
          (λ r.
            (r.1 ≡ tokens ts)
            × (refresh_mail_account_credentials enc (asking req worker duration expected) env r.0
                ≡ (
                  record { seen = r.0.durable; durable = r.0.durable; in_transaction = true },
                  tokens (as_stored plain cred ts),
                )))
          (sym complete_commits) (refl, later_call worker duration expected env older)
