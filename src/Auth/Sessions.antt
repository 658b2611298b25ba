-- ===== src/Auth/Sessions.antt =====
-- `SessionService` (apps/api/app/auth/sessions.py). The tables that an exception leaves are those
-- of the transaction that is still open; the endpoint decides whether it is committed.
use outlook_dictionary.Common.{
  ℕ, ◌+◌, ◌*◌, Bool, none, some, List, [], ◌∷◌, if◌then◌else◌, ltb, is_some,
}
use outlook_dictionary.Auth.{
  DeviceSession, RefreshTokenFamily, Tables, session_of_hash, family_of_hash, revoke,
  revoke_all_for_user, mark_consumed, create_epoch, insert_session, update_session,
}

pub record Settings : Type 0 where
  pub session_absolute_timeout_days : ℕ
  pub session_remember_me_days : ℕ
  pub session_idle_timeout_hours : ℕ

-- `RefreshTokenPair`
pub record RefreshTokenPair : Type 0 where
  pub plaintext : ℕ
  pub hash_val : ℕ

pub data SecurityEventType : Type 0 where
  session_created : SecurityEventType
  token_refresh_failed : SecurityEventType
  session_reuse_detected : SecurityEventType
  all_sessions_revoked : SecurityEventType
  session_expired : SecurityEventType
  token_refreshed : SecurityEventType
  token_invalid : SecurityEventType
  session_revoked : SecurityEventType

-- What `refresh_session` and `create_session` return or raise.
pub data Outcome : Type 0 where
  issued : DeviceSession → RefreshTokenPair → Outcome
  token_invalid_error : Outcome
  refresh_token_reused_error : Outcome
  session_expired_error : Outcome
  integrity_error : Outcome

-- The outcome, the tables of the open transaction and the security events that were emitted.
pub record Done : Type 0 where
  pub outcome : Outcome
  pub tables : Tables
  pub emitted : List SecurityEventType

-- `timedelta(days=…)` and `timedelta(hours=…)`, in seconds
abbrev pub days : ℕ → ℕ
days n = n * 86400

abbrev pub hours : ℕ → ℕ
hours n = n * 3600

abbrev pub is_revoked : DeviceSession → Bool
is_revoked s = is_some s.revoked_at

-- `session.expires_at < now`
abbrev pub is_expired : ℕ → DeviceSession → Bool
is_expired now s = ltb s.expires_at now

-- `session.last_active_at < now - timedelta(hours=session_idle_timeout_hours)`
abbrev pub is_idle : Settings → ℕ → DeviceSession → Bool
is_idle settings now s = ltb (s.last_active_at + hours settings.session_idle_timeout_hours) now

module _ (settings : Settings) where
  abbrev pub absolute_days : (remember_me : Bool) → ℕ
  absolute_days remember_me =
      if remember_me
      then settings.session_remember_me_days
      else settings.session_absolute_timeout_days

  -- The row that `create_session` inserts.
  abbrev pub new_session :
      (user_id tenant_id : ℕ)
      → (remember_me : Bool) → RefreshTokenPair
      → (now id : ℕ) → DeviceSession
  new_session user_id tenant_id remember_me pair now id = record {
    id = id;
    user_id = user_id;
    tenant_id = tenant_id;
    current_refresh_token_hash = pair.hash_val;
    expires_at = now + days (absolute_days remember_me);
    last_active_at = now;
    revoked_at = none;
    identity_id = none;
  }

  -- `create_session`, with the token pair that `generate_refresh_token` draws
  unfoldable pub create_session :
      (user_id tenant_id : ℕ) → (remember_me : Bool) → RefreshTokenPair → (now : ℕ) → Tables → Done
  create_session user_id tenant_id remember_me pair now db =
      let session = new_session user_id tenant_id remember_me pair now db.next_uuid in
      elim (insert_session session db) [
        | none ↦ record { outcome = integrity_error; tables = db; emitted = [] }
        | some db' ↦ elim (create_epoch session.id pair.hash_val db') [
          | none ↦ record { outcome = integrity_error; tables = db'; emitted = [] }
          | some db'' ↦ record {
            outcome = issued session pair;
            tables = db'';
            emitted = SecurityEventType.session_created ∷ [];
          }
        ]
      ]

  -- `_revoke_and_raise_expired`
  unfoldable pub revoke_and_raise_expired : DeviceSession → (now : ℕ) → Tables → Done
  revoke_and_raise_expired session now db = record {
    outcome = session_expired_error;
    tables = revoke session.id now db;
    emitted = SecurityEventType.session_expired ∷ [];
  }

  -- The end of `refresh_session`: the old epoch is consumed, the session takes the new hash, and a
  -- new epoch is added.
  unfoldable pub rotate :
      RefreshTokenFamily → DeviceSession → RefreshTokenPair → (now : ℕ) → Tables → Done
  rotate family session pair now db =
      let consumed = mark_consumed family.id now db in
      elim (update_session session.id pair.hash_val now consumed) [
        | none ↦ record { outcome = integrity_error; tables = consumed; emitted = [] }
        | some db' ↦ elim (create_epoch session.id pair.hash_val db') [
          | none ↦ record { outcome = integrity_error; tables = db'; emitted = [] }
          | some db'' ↦ record {
            outcome =
                issued
                  (record session {
                    current_refresh_token_hash = pair.hash_val;
                    last_active_at = now;
                  })
                  pair;
            tables = db'';
            emitted = SecurityEventType.token_refreshed ∷ [];
          }
        ]
      ]

  -- `refresh_session` from the session on
  unfoldable pub refresh_found :
      RefreshTokenFamily → DeviceSession → RefreshTokenPair → (now : ℕ) → Tables → Done
  refresh_found family session pair now db =
      if is_revoked session
      then record {
        outcome = refresh_token_reused_error;
        tables = revoke_all_for_user session.user_id now db;
        emitted =
            SecurityEventType.session_reuse_detected ∷ SecurityEventType.all_sessions_revoked ∷ [];
      }
      else if is_expired now session
      then revoke_and_raise_expired session now db
      else if is_idle settings now session
      then revoke_and_raise_expired session now db
      else rotate family session pair now db

  -- `refresh_session` from the epoch on
  unfoldable pub refresh_family :
      RefreshTokenFamily → (hash_val : ℕ) → RefreshTokenPair → (now : ℕ) → Tables → Done
  refresh_family family hash_val pair now db =
      if is_some family.consumed_at
      then record {
        outcome = refresh_token_reused_error;
        tables = db;
        emitted = SecurityEventType.session_reuse_detected ∷ [];
      }
      else elim (session_of_hash hash_val db) [
        | none ↦ record { outcome = token_invalid_error; tables = db; emitted = [] }
        | some session ↦ refresh_found family session pair now db
      ]

  -- `refresh_session`, where `hash` is `hash_refresh_token` (SHA-256)
  unfoldable pub refresh_session :
      (hash : ℕ → ℕ) → (token : ℕ) → RefreshTokenPair → (now : ℕ) → Tables → Done
  refresh_session hash token pair now db = elim (family_of_hash (hash token) db) [
    | none ↦ record {
      outcome = token_invalid_error;
      tables = db;
      emitted = SecurityEventType.token_refresh_failed ∷ [];
    }
    | some family ↦ refresh_family family (hash token) pair now db
  ]
