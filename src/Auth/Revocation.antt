-- ===== src/Auth/Revocation.antt =====
-- What the two endpoints make of the token of a revoked session.
use mathlib.Core.Path.{subst}
use outlook_dictionary.Common.{
  ℕ, ◌≡◌, sym, Bool, true, none, some, List, [], ◌∷◌, arith, is_some, is_none, ◌==◌, ◌&&◌, ◌||◌,
  not, All,
}
use outlook_dictionary.Sql.{update_where}
use outlook_dictionary.Auth.{
  DeviceSession, RefreshTokenFamily, Tables, session_of_hash, family_of_hash, revoke_all_for_user,
  revoked_now,
}
use outlook_dictionary.Auth.Sessions.{
  Settings, RefreshTokenPair, refresh_token_reused_error, refresh_session, refresh_family,
  refresh_found,
}
use outlook_dictionary.Auth.Router.{Answer, refused, refresh, token}

-- The session is another user's, or revoked.
abbrev pub IsRevokedFor : ℕ → DeviceSession → Type 0
IsRevokedFor user_id s = (not (s.user_id == user_id) || is_some s.revoked_at) ≡ true

All-revoked :
    (user_id now : ℕ) (rows : List DeviceSession)
    → All
        (IsRevokedFor user_id)
        (update_where (λ s. s.user_id == user_id && is_none s.revoked_at) (revoked_now now) rows)
unfolding update_where
All-revoked user_id now [] = tt
All-revoked user_id now (s ∷ rows) = (ground arith, All-revoked user_id now rows)

module _ (settings : Settings) (hash : ℕ → ℕ) (tenant_is_active : ℕ → Bool) (t : ℕ)
    (pair : RefreshTokenPair) (now : ℕ) (db : Tables) (family : RefreshTokenFamily)
    (session : DeviceSession) (family_found : family_of_hash (hash t) db ≡ some family)
    (unconsumed : family.consumed_at ≡ none)
    (session_found : session_of_hash (hash t) db ≡ some session)
    (revoked : is_some session.revoked_at ≡ true) where
  at_token :
      token settings hash tenant_is_active t pair now db
      ≡ (refused refresh_token_reused_error, revoke_all_for_user session.user_id now db)
  unfolding token refresh_session refresh_family refresh_found
  at_token = ground (arith, family_found, unconsumed, session_found, revoked)

  at_refresh :
      refresh settings hash tenant_is_active t pair now db
      ≡ (refused refresh_token_reused_error, db)
  unfolding refresh refresh_session refresh_family refresh_found
  at_refresh = ground (arith, family_found, unconsumed, session_found, revoked)

  -- The token of a revoked session, not yet rotated, is refused as reused at both endpoints. At
  -- `/auth/token` every session of its user is then revoked; at `/auth/refresh` the exception
  -- rolls the revocation back, and the tables are as they were.
  pub revoked_session_reuse :
      (token settings hash tenant_is_active t pair now db
        ≡ (refused refresh_token_reused_error, revoke_all_for_user session.user_id now db))
      × All
          (IsRevokedFor session.user_id)
          (token settings hash tenant_is_active t pair now db).1.sessions
      × (refresh settings hash tenant_is_active t pair now db
          ≡ (refused refresh_token_reused_error, db))
  unfolding revoke_all_for_user
  revoked_session_reuse = (
    at_token,
    subst (λ (a : Answer × Tables). All (IsRevokedFor session.user_id) a.1.sessions) (sym at_token)
        (All-revoked session.user_id now db.sessions),
    at_refresh,
  )
