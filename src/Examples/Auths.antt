-- ===== src/Examples/Auths.antt =====
-- The endpoints at one user with one session.
use outlook_dictionary.Common.{ℕ, ◌+◌, ◌≡◌, refl, Bool, true, none, some, List, [], ◌∷◌, All}
use outlook_dictionary.Sql.{first, update_where}
use outlook_dictionary.Auth.{
  DeviceSession, RefreshTokenFamily, Tables, session_of_hash, family_of_hash, revoke_all_for_user,
  mark_consumed, create_epoch, update_session,
}
use outlook_dictionary.Auth.Sessions.{
  Settings, RefreshTokenPair, refresh_token_reused_error, refresh_session, refresh_family,
  refresh_found, rotate,
}
use outlook_dictionary.Auth.Router.{
  refused, Request, asks_token, refreshes, logs_out, serve, refresh, token,
}
use outlook_dictionary.Auth.Rotation.{
  at_refresh, at_token, afterwards, Rotation, refresh_session-Rotation, token_used_once,
}
use outlook_dictionary.Auth.Revocation.{IsRevokedFor, revoked_session_reuse}

abbrev settings : Settings
settings = record {
  session_absolute_timeout_days = 7;
  session_remember_me_days = 30;
  session_idle_timeout_hours = 24;
}

-- A stand-in for SHA-256.
abbrev hash : ℕ → ℕ
hash t = t + 1000

abbrev pair : ℕ → RefreshTokenPair
pair t = record { plaintext = t; hash_val = hash t }

abbrev active : ℕ → Bool
active _ = true

abbrev session : DeviceSession
session = record {
  id = 1;
  user_id = 7;
  tenant_id = 3;
  current_refresh_token_hash = 1010;
  expires_at = 100000;
  last_active_at = 100;
  revoked_at = none;
  identity_id = none;
}

abbrev family : RefreshTokenFamily
family = record { id = 2; device_session_id = 1; token_hash = 1010; consumed_at = none }

abbrev logged_in : Tables
logged_in = record { sessions = session ∷ []; families = family ∷ []; next_uuid = 3 }

abbrev logged_out : Tables
logged_out = record {
  sessions = record session { revoked_at = some 150 } ∷ [];
  families = family ∷ [];
  next_uuid = 3;
}

refresh_session-Rotation_example :
    Rotation settings hash 10 200 logged_in
      (refresh_session settings hash 10 (pair 11) 200 logged_in)
unfolding refresh_session refresh_family refresh_found rotate family_of_hash session_of_hash
    mark_consumed update_session create_epoch first update_where
refresh_session-Rotation_example =
    refresh_session-Rotation settings hash 10 (pair 11) 200 logged_in
      (record session { current_refresh_token_hash = 1011; last_active_at = 200 }) (pair 11) refl

-- Token 10 is rotated, then token 11, then the user logs out: token 10 is refused.
abbrev meanwhile : List Request
meanwhile = asks_token 11 (pair 12) 300 ∷ logs_out 12 400 ∷ []

token_used_once_example :
    serve settings hash active
      (asks_token 10 (pair 13) 500)
      (afterwards settings hash active (refreshes 10 (pair 11) 200) meanwhile logged_in)
    ≡ (
      refused refresh_token_reused_error,
      afterwards settings hash active (refreshes 10 (pair 11) 200) meanwhile logged_in,
    )
unfolding serve refresh refresh_session refresh_family refresh_found rotate family_of_hash
    session_of_hash mark_consumed update_session create_epoch first update_where
token_used_once_example =
    token_used_once settings hash active 10 (refreshes 10 (pair 11) 200)
      (asks_token 10 (pair 13) 500) meanwhile logged_in (pair 11) at_refresh at_token refl

revoked_session_reuse_example :
    (token settings hash active 10 (pair 11) 200 logged_out
      ≡ (refused refresh_token_reused_error, revoke_all_for_user 7 200 logged_out))
    × All (IsRevokedFor 7) (token settings hash active 10 (pair 11) 200 logged_out).1.sessions
    × (refresh settings hash active 10 (pair 11) 200 logged_out
        ≡ (refused refresh_token_reused_error, logged_out))
unfolding family_of_hash session_of_hash first
revoked_session_reuse_example =
    revoked_session_reuse settings hash active 10 (pair 11) 200 logged_out family
      (record session { revoked_at = some 150 }) refl refl refl refl
