-- ===== src/Auth/Rotation.antt =====
-- What a rotation requires, and that its token is refused ever after.
use mathlib.Core.Path.{subst}
use outlook_dictionary.Common.{
  ℕ, ◌+◌, ◌≡◌, refl, sym, ap, ◌∙◌, inl, inr, Bool, true, none, some, List, arith, Option-cases, ◌≤◌,
}
use outlook_dictionary.Auth.{
  DeviceSession, RefreshTokenFamily, Tables, session_of_hash, family_of_hash,
}
use outlook_dictionary.Auth.Sessions.{
  Settings, RefreshTokenPair, Outcome, issued, token_invalid_error, refresh_token_reused_error,
  session_expired_error, integrity_error, Done, rotate, refresh_found, refresh_family,
  refresh_session, revoke_and_raise_expired, hours,
}
use outlook_dictionary.Auth.Router.{
  tokens, refused, after_rotation, refresh, token, Request, refreshes, asks_token, serve, serve_all,
}
use outlook_dictionary.Auth.Replay.{spent, mark_consumed-found, rotate-spent, serve_all-spent}

-- The requests that present a token for rotation.
pub data Presents (t : ℕ) : Request → Type 0 where
  at_refresh : {pair : RefreshTokenPair} {now : ℕ} → Presents t (refreshes t pair now)
  at_token : {pair : RefreshTokenPair} {now : ℕ} → Presents t (asks_token t pair now)

module _ (settings : Settings) (hash : ℕ → ℕ) where
  -- A spent token is refused, and nothing changes.
  spent_refused :
      (t : ℕ) (pair : RefreshTokenPair) (now : ℕ) (db : Tables)
      → spent (hash t) db ≡ true
      → ((refresh_session settings hash t pair now db).outcome ≡ refresh_token_reused_error)
        × ((refresh_session settings hash t pair now db).tables ≡ db)
  unfolding spent refresh_session refresh_family
  spent_refused t pair now db h = ground arith

  -- A session that is rotated is neither revoked, nor past its absolute timeout, nor idle too long.
  pub record IsLive (now : ℕ) (session : DeviceSession) : Type 0 where
    pub not_revoked : session.revoked_at ≡ none
    pub not_expired : now ≤ session.expires_at
    pub not_idle : now ≤ session.last_active_at + hours settings.session_idle_timeout_hours

  -- What a successful rotation was given, and that it spent the token.
  pub record Rotation (t now : ℕ) (db : Tables) (done : Done) : Type 0 where
    pub family : RefreshTokenFamily
    pub session : DeviceSession
    pub family_found : family_of_hash (hash t) db ≡ some family
    pub session_found : session_of_hash (hash t) db ≡ some session
    pub unconsumed : family.consumed_at ≡ none
    pub live : IsLive now session
    pub now_spent : spent (hash t) done.tables ≡ true

  refresh_found-IsLive :
      (family : RefreshTokenFamily) (session : DeviceSession) (pair : RefreshTokenPair) (now : ℕ)
      (db : Tables) (s : DeviceSession) (p : RefreshTokenPair)
      → (refresh_found settings family session pair now db).outcome ≡ issued s p
      → IsLive now session
        × (refresh_found settings family session pair now db
            ≡ rotate settings family session pair now db)
  unfolding refresh_found revoke_and_raise_expired
  refresh_found-IsLive family session pair now db s p e = (
    record { not_revoked = ground arith; not_expired = ground arith; not_idle = ground arith },
    ground arith,
  )

  -- The session of an epoch that is rotated.
  record Rotated (family : RefreshTokenFamily) (pair : RefreshTokenPair) (t now : ℕ) (db : Tables)
      (done : Done) : Type 0 where
    session : DeviceSession
    session_found : session_of_hash (hash t) db ≡ some session
    unconsumed : family.consumed_at ≡ none
    live : IsLive now session
    by_rotation : done ≡ rotate settings family session pair now db

  refresh_family-Rotated :
      (family : RefreshTokenFamily) (t : ℕ) (pair : RefreshTokenPair) (now : ℕ) (db : Tables)
      (s : DeviceSession) (p : RefreshTokenPair)
      → (refresh_family settings family (hash t) pair now db).outcome ≡ issued s p
      → Rotated family pair t now db (refresh_family settings family (hash t) pair now db)
  unfolding refresh_family
  refresh_family-Rotated family t pair now db s p e =
      elim (Option-cases (session_of_hash (hash t) db)) [
        | inl absent ↦ absurd (ground arith)
        | inr (session, found) ↦ go session found (ground arith)
      ]
    where
      go :
          (session : DeviceSession)
          → session_of_hash (hash t) db ≡ some session
          → refresh_family settings family (hash t) pair now db
            ≡ refresh_found settings family session pair now db
          → Rotated family pair t now db (refresh_family settings family (hash t) pair now db)
      go session found same = record {
        session = session;
        session_found = found;
        unconsumed = ground arith;
        live =
            (refresh_found-IsLive family session pair now db s p
              (sym (ap (λ d. d.outcome) same) ∙ e)).0;
        by_rotation =
            same
            ∙ (refresh_found-IsLive family session pair now db s p
                (sym (ap (λ d. d.outcome) same) ∙ e)).1;
      }

  -- If `refresh_session` issues tokens, then the epoch of the token was there and unconsumed, its
  -- session was there, not revoked, not past its absolute timeout and not idle for too long, and
  -- the epoch is consumed afterwards.
  pub refresh_session-Rotation :
      (t : ℕ) (pair : RefreshTokenPair) (now : ℕ) (db : Tables) (s : DeviceSession)
      (p : RefreshTokenPair)
      → (refresh_session settings hash t pair now db).outcome ≡ issued s p
      → Rotation t now db (refresh_session settings hash t pair now db)
  unfolding refresh_session
  refresh_session-Rotation t pair now db s p e = elim (Option-cases (family_of_hash (hash t) db)) [
    | inl absent ↦ absurd (ground arith)
    | inr (family, found) ↦ go family found (ground arith)
  ]
    where
      go :
          (family : RefreshTokenFamily)
          → family_of_hash (hash t) db ≡ some family
          → refresh_session settings hash t pair now db
            ≡ refresh_family settings family (hash t) pair now db
          → Rotation t now db (refresh_session settings hash t pair now db)
      go family found same =
          (let r =
              refresh_family-Rotated family t pair now db s p
                (sym (ap (λ d. d.outcome) same) ∙ e) in
            record {
              family = family;
              session = r.session;
              family_found = found;
              session_found = r.session_found;
              unconsumed = r.unconsumed;
              live = r.live;
              now_spent =
                  subst (λ d. spent (hash t) d.tables ≡ true) (sym (same ∙ r.by_rotation))
                    (rotate-spent settings (hash t) family r.session pair now db
                      (mark_consumed-found (hash t) now family db found));
            })

module _ (settings : Settings) (hash : ℕ → ℕ) (tenant_is_active : ℕ → Bool) where
  after_rotation-tokens :
      (session : DeviceSession) (pair p : RefreshTokenPair) (before after : Tables)
      → (after_rotation settings hash tenant_is_active session pair before after).0 ≡ tokens p
      → (after_rotation settings hash tenant_is_active session pair before after).1 ≡ after
  after_rotation-tokens session pair p before after e = ground arith

  refresh-spends :
      (t : ℕ) (pair : RefreshTokenPair) (now : ℕ) (db : Tables) (p : RefreshTokenPair)
      → (refresh settings hash tenant_is_active t pair now db).0 ≡ tokens p
      → spent (hash t) (refresh settings hash tenant_is_active t pair now db).1 ≡ true
  unfolding refresh
  refresh-spends t pair now db p e = go (refresh_session settings hash t pair now db).outcome refl
    where
      go :
          (o : Outcome)
          → (refresh_session settings hash t pair now db).outcome ≡ o
          → spent (hash t) (refresh settings hash tenant_is_active t pair now db).1 ≡ true
      go (issued s q) o =
          ground (arith, (refresh_session-Rotation settings hash t pair now db s q o).now_spent)
      go token_invalid_error o = ground arith
      go refresh_token_reused_error o = ground arith
      go session_expired_error o = ground arith
      go integrity_error o = ground arith

  token-spends :
      (t : ℕ) (pair : RefreshTokenPair) (now : ℕ) (db : Tables) (p : RefreshTokenPair)
      → (token settings hash tenant_is_active t pair now db).0 ≡ tokens p
      → spent (hash t) (token settings hash tenant_is_active t pair now db).1 ≡ true
  unfolding token
  token-spends t pair now db p e = go (refresh_session settings hash t pair now db).outcome refl
    where
      go :
          (o : Outcome)
          → (refresh_session settings hash t pair now db).outcome ≡ o
          → spent (hash t) (token settings hash tenant_is_active t pair now db).1 ≡ true
      go (issued s q) o =
          ground (arith, (refresh_session-Rotation settings hash t pair now db s q o).now_spent)
      go token_invalid_error o = ground arith
      go refresh_token_reused_error o = ground arith
      go session_expired_error o = ground arith
      go integrity_error o = ground arith

  serve_spends :
      (t : ℕ) (r : Request) (db : Tables) (p : RefreshTokenPair)
      → Presents t r
      → (serve settings hash tenant_is_active r db).0 ≡ tokens p
      → spent (hash t) (serve settings hash tenant_is_active r db).1 ≡ true
  unfolding serve
  serve_spends t _ db p (at_refresh {pair = pair} {now = now}) e = refresh-spends t pair now db p e
  serve_spends t _ db p (at_token {pair = pair} {now = now}) e = token-spends t pair now db p e

  serve_refuses :
      (t : ℕ) (r : Request) (db : Tables)
      → Presents t r
      → spent (hash t) db ≡ true
      → serve settings hash tenant_is_active r db ≡ (refused refresh_token_reused_error, db)
  unfolding serve refresh token
  serve_refuses t _ db (at_refresh {pair = pair} {now = now}) h =
      ground (arith, spent_refused settings hash t pair now db h)
  serve_refuses t _ db (at_token {pair = pair} {now = now}) h =
      ground (arith, spent_refused settings hash t pair now db h)

  -- The tables after a request and those that follow it.
  abbrev pub afterwards : Request → List Request → Tables → Tables
  afterwards first_request between db =
      serve_all settings hash tenant_is_active between
        (serve settings hash tenant_is_active first_request db).1

  -- A refresh token is used once. After a request that presented a token, at either endpoint, and
  -- was answered with new tokens, and after whatever requests follow it, a request that presents
  -- the same token again is refused as reused and changes nothing.
  pub token_used_once :
      (t : ℕ) (first_request again : Request) (between : List Request) (db : Tables)
      (p : RefreshTokenPair)
      → Presents t first_request
      → Presents t again
      → (serve settings hash tenant_is_active first_request db).0 ≡ tokens p
      → serve settings hash tenant_is_active again (afterwards first_request between db)
        ≡ (refused refresh_token_reused_error, afterwards first_request between db)
  token_used_once t first_request again between db p one two e =
      serve_refuses t again (afterwards first_request between db) two (
        serve_all-spent settings hash tenant_is_active (hash t) between
          (serve settings hash tenant_is_active first_request db).1
          (serve_spends t first_request db p one e))
