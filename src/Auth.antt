-- ===== src/Auth.antt =====
-- Device sessions and refresh tokens: the rows (packages/models/src/mip_models/auth.py), the
-- repositories (apps/api/app/repositories/auth.py), and in the child modules the service
-- (apps/api/app/auth/sessions.py) and the endpoints (apps/api/app/api/auth/router.py).
use outlook_dictionary.Common.{
  ℕ, ◌+◌, Bool, not, ◌&&◌, Option, none, some, List, [], ◌∷◌, ◌++◌, map, if◌then◌else◌, ◌==◌,
  is_none, is_some,
}
use outlook_dictionary.Sql.{select, first, update_where}
pub mod Sessions
pub mod Router
pub mod Replay
pub mod Rotation
pub mod Revocation

-- Identifiers, tokens and their SHA-256 hashes are numbers, times are seconds.
pub record DeviceSession : Type 0 where
  pub id : ℕ
  pub user_id : ℕ
  pub tenant_id : ℕ
  pub current_refresh_token_hash : ℕ
  pub expires_at : ℕ
  pub last_active_at : ℕ
  pub revoked_at : Option ℕ
  pub identity_id : Option ℕ

pub record RefreshTokenFamily : Type 0 where
  pub id : ℕ
  pub device_session_id : ℕ
  pub token_hash : ℕ
  pub consumed_at : Option ℕ

-- The tables, and the identifier that the next `uuid4()` returns.
pub record Tables : Type 0 where
  pub sessions : List DeviceSession
  pub families : List RefreshTokenFamily
  pub next_uuid : ℕ

-- `DeviceSessionRepository.get_by_refresh_token_hash`
unfoldable pub session_of_hash : ℕ → Tables → Option DeviceSession
session_of_hash hash_val db = first (λ s. s.current_refresh_token_hash == hash_val) db.sessions

-- `RefreshTokenFamilyRepository.get_by_token_hash`
unfoldable pub family_of_hash : ℕ → Tables → Option RefreshTokenFamily
family_of_hash hash_val db = first (λ f. f.token_hash == hash_val) db.families

abbrev pub revoked_now : ℕ → DeviceSession → DeviceSession
revoked_now now s = record s { revoked_at = some now }

-- `DeviceSessionRepository.revoke`
unfoldable pub revoke : (session_id now : ℕ) → Tables → Tables
revoke session_id now db = record db {
  sessions =
      update_where (λ s. s.id == session_id && is_none s.revoked_at) (revoked_now now) db.sessions;
}

-- `DeviceSessionRepository.revoke_all_for_user`
unfoldable pub revoke_all_for_user : (user_id now : ℕ) → Tables → Tables
revoke_all_for_user user_id now db = record db {
  sessions =
      update_where (λ s. s.user_id == user_id && is_none s.revoked_at) (revoked_now now)
        db.sessions;
}

-- `RefreshTokenFamilyRepository.mark_consumed`
unfoldable pub mark_consumed : (family_id now : ℕ) → Tables → Tables
mark_consumed family_id now db = record db {
  families =
      update_where (λ f. f.id == family_id && is_none f.consumed_at)
        (λ f. record f { consumed_at = some now }) db.families;
}

-- `RefreshTokenFamilyRepository.create_epoch`; `none` is the error of the unique hash.
unfoldable pub create_epoch : (device_session_id token_hash : ℕ) → Tables → Option Tables
create_epoch device_session_id token_hash db =
    if is_some (family_of_hash token_hash db)
    then none
    else some (record db {
      families =
          db.families
          ++ record {
            id = db.next_uuid;
            device_session_id = device_session_id;
            token_hash = token_hash;
            consumed_at = none;
          }
            ∷ [];
      next_uuid = db.next_uuid + 1;
    })

-- `DeviceSessionRepository.create`; `none` is the error of the unique hash.
unfoldable pub insert_session : DeviceSession → Tables → Option Tables
insert_session s db =
    if is_some (session_of_hash s.current_refresh_token_hash db)
    then none
    else some (record db { sessions = db.sessions ++ s ∷ []; next_uuid = db.next_uuid + 1 })

-- `BaseRepository.update` with the new hash and the time; `none` is the error of the unique hash.
unfoldable pub update_session : (session_id hash_val now : ℕ) → Tables → Option Tables
update_session session_id hash_val now db =
    if is_some (
      first (λ s. s.current_refresh_token_hash == hash_val && not (s.id == session_id)) db.sessions)
    then none
    else some (record db {
      sessions =
          update_where (λ s. s.id == session_id)
            (λ s. record s { current_refresh_token_hash = hash_val; last_active_at = now })
            db.sessions;
    })
