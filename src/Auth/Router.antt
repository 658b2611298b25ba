-- ===== src/Auth/Router.antt =====
-- The endpoints on refresh tokens (apps/api/app/api/auth/router.py), each in the transaction of
-- `get_db`: committed if the endpoint returns, rolled back if it raises.
use outlook_dictionary.Common.{ℕ, Bool, true, false, none, some, List, [], ◌∷◌}
use outlook_dictionary.Auth.{DeviceSession, Tables, session_of_hash, revoke, revoke_all_for_user}
use outlook_dictionary.Auth.Sessions.{
  Settings, RefreshTokenPair, Outcome, issued, token_invalid_error, refresh_token_reused_error,
  session_expired_error, integrity_error, create_session, refresh_session,
}

-- The answer of a request.
pub data Answer : Type 0 where
  tokens : RefreshTokenPair → Answer
  no_content : Answer
  refused : Outcome → Answer
  tenant_access_denied : Answer

-- `get_db`: the answer and the committed tables.
abbrev pub committed : Answer → Tables → Answer × Tables
committed a db = (a, db)

module _ (settings : Settings) (hash : ℕ → ℕ) (tenant_is_active : ℕ → Bool) where
  -- `_execute_refresh` after the rotation: an inactive tenant raises, so all is rolled back.
  abbrev pub after_rotation :
      DeviceSession → RefreshTokenPair → (before after : Tables) → Answer × Tables
  after_rotation session pair before after = elim (tenant_is_active session.tenant_id) [
    | true ↦ (tokens pair, after)
    | false ↦ (tenant_access_denied, before)
  ]

  -- `/auth/refresh`: every exception leaves the endpoint, so its transaction is rolled back.
  abbrev pub end_refresh : Tables → Outcome → Tables → Answer × Tables
  end_refresh before (issued session pair) after = after_rotation session pair before after
  end_refresh before token_invalid_error after = (refused token_invalid_error, before)
  end_refresh before refresh_token_reused_error after = (refused refresh_token_reused_error, before)
  end_refresh before session_expired_error after = (refused session_expired_error, before)
  end_refresh before integrity_error after = (refused integrity_error, before)

  unfoldable pub refresh : (token : ℕ) → RefreshTokenPair → (now : ℕ) → Tables → Answer × Tables
  refresh token pair now db =
      let done = refresh_session settings hash token pair now db in
      end_refresh db done.outcome done.tables

  -- `/auth/token`: the three errors become responses, so the transaction is committed.
  abbrev pub end_token : Tables → Outcome → Tables → Answer × Tables
  end_token before (issued session pair) after = after_rotation session pair before after
  end_token before token_invalid_error after = (refused token_invalid_error, after)
  end_token before refresh_token_reused_error after = (refused refresh_token_reused_error, after)
  end_token before session_expired_error after = (refused session_expired_error, after)
  end_token before integrity_error after = (refused integrity_error, before)

  -- `/auth/token` with the grant type and a token that are supported
  unfoldable pub token : (token : ℕ) → RefreshTokenPair → (now : ℕ) → Tables → Answer × Tables
  token refresh_token pair now db =
      let done = refresh_session settings hash refresh_token pair now db in
      end_token db done.outcome done.tables

  -- `/auth/logout`
  unfoldable pub logout : (token now : ℕ) → Tables → Answer × Tables
  logout refresh_token now db = elim (session_of_hash (hash refresh_token) db) [
    | none ↦ (refused token_invalid_error, db)
    | some session ↦ (no_content, revoke session.id now db)
  ]

  -- `/auth/logout-all`
  unfoldable pub logout_all : (token now : ℕ) → Tables → Answer × Tables
  logout_all refresh_token now db = elim (session_of_hash (hash refresh_token) db) [
    | none ↦ (refused token_invalid_error, db)
    | some session ↦ (no_content, revoke_all_for_user session.user_id now db)
  ]

  -- A login that has resolved the user; an error of the insert rolls back.
  abbrev pub end_login : Tables → Outcome → Tables → Answer × Tables
  end_login before (issued session pair) after = (tokens pair, after)
  end_login before token_invalid_error after = (refused token_invalid_error, before)
  end_login before refresh_token_reused_error after = (refused refresh_token_reused_error, before)
  end_login before session_expired_error after = (refused session_expired_error, before)
  end_login before integrity_error after = (refused integrity_error, before)

  unfoldable pub login :
      (user_id tenant_id : ℕ)
      → (remember_me : Bool) → RefreshTokenPair
      → (now : ℕ) → Tables
      → Answer × Tables
  login user_id tenant_id remember_me pair now db =
      let done = create_session settings user_id tenant_id remember_me pair now db in
      end_login db done.outcome done.tables

-- The requests, each with the token pair that it draws and its time.
pub data Request : Type 0 where
  logins : (user_id tenant_id : ℕ) → Bool → RefreshTokenPair → (now : ℕ) → Request
  refreshes : (token : ℕ) → RefreshTokenPair → (now : ℕ) → Request
  asks_token : (token : ℕ) → RefreshTokenPair → (now : ℕ) → Request
  logs_out : (token now : ℕ) → Request
  logs_out_all : (token now : ℕ) → Request

module _ (settings : Settings) (hash : ℕ → ℕ) (tenant_is_active : ℕ → Bool) where
  unfoldable pub serve : Request → Tables → Answer × Tables
  serve (logins user_id tenant_id remember_me pair now) db =
      login settings hash tenant_is_active user_id tenant_id remember_me pair now db
  serve (refreshes t pair now) db = refresh settings hash tenant_is_active t pair now db
  serve (asks_token t pair now) db = token settings hash tenant_is_active t pair now db
  serve (logs_out t now) db = logout settings hash tenant_is_active t now db
  serve (logs_out_all t now) db = logout_all settings hash tenant_is_active t now db

  unfoldable pub serve_all : List Request → Tables → Tables
  serve_all [] db = db
  serve_all (r ∷ rs) db = serve_all rs (serve r db).1
