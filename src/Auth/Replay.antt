-- ===== src/Auth/Replay.antt =====
-- A refresh token is used once: the requests keep what was consumed.
use outlook_dictionary.Common.{
  ℕ, ◌≡◌, refl, ◌∙◌, inl, inr, Bool, true, false, Option, none, some, List, [], ◌∷◌, ◌++◌, arith,
  is_some, is_none, ◌==◌, ◌&&◌, Option-cases, Bool-cases,
}
use outlook_dictionary.Sql.{first}
use outlook_dictionary.Sql.Keyed.{first-update}
use outlook_dictionary.Auth.{
  DeviceSession, RefreshTokenFamily, Tables, session_of_hash, family_of_hash, revoke,
  revoke_all_for_user, mark_consumed, create_epoch, insert_session, update_session,
}
use outlook_dictionary.Auth.Sessions.{
  Settings, RefreshTokenPair, create_session, new_session, rotate, refresh_found, refresh_family,
  refresh_session, revoke_and_raise_expired,
}
use outlook_dictionary.Auth.Router.{
  refresh, token, logout, logout_all, login, Request, logins, refreshes, asks_token, logs_out,
  logs_out_all, serve, serve_all,
}

abbrev pub consumed : Option RefreshTokenFamily → Bool
consumed none = false
consumed (some f) = is_some f.consumed_at

-- The token of this hash has been rotated.
unfoldable pub spent : ℕ → Tables → Bool
spent hash_val db = consumed (family_of_hash hash_val db)

mark_consumed-spent :
    (hash_val family_id now : ℕ) (db : Tables)
    → spent hash_val db ≡ true
    → spent hash_val (mark_consumed family_id now db) ≡ true
unfolding spent mark_consumed family_of_hash
mark_consumed-spent hash_val family_id now db h = ground (
  arith,
  first-update (λ f. f.token_hash == hash_val) (λ f. f.id == family_id && is_none f.consumed_at)
      (λ f. record f { consumed_at = some now }) db.families (λ _. refl),
)

-- The epoch that is found is consumed by its identifier.
pub mark_consumed-found :
    (hash_val now : ℕ) (family : RefreshTokenFamily) (db : Tables)
    → family_of_hash hash_val db ≡ some family
    → spent hash_val (mark_consumed family.id now db) ≡ true
unfolding spent mark_consumed family_of_hash
mark_consumed-found hash_val now family db found = ground (
  arith,
  found,
  first-update (λ f. f.token_hash == hash_val) (λ f. f.id == family.id && is_none f.consumed_at)
      (λ f. record f { consumed_at = some now }) db.families (λ _. refl),
)

append-consumed :
    (p : RefreshTokenFamily → Bool) (rows : List RefreshTokenFamily) (x : RefreshTokenFamily)
    → consumed (first p rows) ≡ true
    → consumed (first p (rows ++ x ∷ [])) ≡ true
unfolding first
append-consumed p [] x h = cc
append-consumed p (r ∷ rows) x h = ground (arith, append-consumed p rows x)

create_epoch-spent :
    (hash_val session_id token_hash : ℕ) (db db' : Tables)
    → spent hash_val db ≡ true
    → create_epoch session_id token_hash db ≡ some db'
    → spent hash_val db' ≡ true
unfolding spent create_epoch family_of_hash
create_epoch-spent hash_val session_id token_hash db db' h e = ground (
  arith,
  append-consumed (λ f. f.token_hash == hash_val) db.families
      (record {
        id = db.next_uuid;
        device_session_id = session_id;
        token_hash = token_hash;
        consumed_at = none;
      })
      h,
)

update_session-spent :
    (hash_val session_id new_hash now : ℕ) (db db' : Tables)
    → update_session session_id new_hash now db ≡ some db'
    → spent hash_val db' ≡ spent hash_val db
unfolding spent update_session family_of_hash
update_session-spent hash_val session_id new_hash now db db' e = ground arith

insert_session-spent :
    (hash_val : ℕ) (s : DeviceSession) (db db' : Tables)
    → insert_session s db ≡ some db'
    → spent hash_val db' ≡ spent hash_val db
unfolding spent insert_session family_of_hash
insert_session-spent hash_val s db db' e = ground arith

module _ (settings : Settings) (hash_val : ℕ) where
  -- The rotation keeps what the first step consumed.
  pub rotate-spent :
      (family : RefreshTokenFamily) (session : DeviceSession) (pair : RefreshTokenPair) (now : ℕ)
      (db : Tables)
      → spent hash_val (mark_consumed family.id now db) ≡ true
      → spent hash_val (rotate settings family session pair now db).tables ≡ true
  unfolding rotate
  rotate-spent family session pair now db h =
      elim (Option-cases (update_session session.id pair.hash_val now marked)) [
        | inl failed ↦ rw (failed, rotate) h
        | inr (db', updated) ↦ elim (Option-cases (create_epoch session.id pair.hash_val db')) [
          | inl failed ↦
              rw (updated, failed, rotate)
                (update_session-spent hash_val session.id pair.hash_val now marked db' updated ∙ h)
          | inr (db'', created) ↦
              rw (updated, created, rotate)
                (create_epoch-spent hash_val session.id pair.hash_val db' db''
                  (update_session-spent hash_val session.id pair.hash_val now marked db' updated
                    ∙ h)
                  created)
        ]
      ]
    where
      marked : Tables
      marked = mark_consumed family.id now db

  refresh_found-spent :
      (family : RefreshTokenFamily) (session : DeviceSession) (pair : RefreshTokenPair) (now : ℕ)
      (db : Tables)
      → spent hash_val db ≡ true
      → spent hash_val (refresh_found settings family session pair now db).tables ≡ true
  unfolding refresh_found revoke_and_raise_expired spent family_of_hash revoke revoke_all_for_user
  refresh_found-spent family session pair now db h = ground (
    arith,
    rotate-spent family session pair now db (mark_consumed-spent hash_val family.id now db h),
  )

  create_session-spent :
      (user_id tenant_id : ℕ) (remember_me : Bool) (pair : RefreshTokenPair) (now : ℕ) (db : Tables)
      → spent hash_val db ≡ true
      → spent hash_val (create_session settings user_id tenant_id remember_me pair now db).tables
        ≡ true
  unfolding create_session
  create_session-spent user_id tenant_id remember_me pair now db h =
      elim (Option-cases (insert_session row db)) [
        | inl failed ↦ rw (failed, create_session) h
        | inr (db', inserted) ↦ elim (Option-cases (create_epoch row.id pair.hash_val db')) [
          | inl failed ↦
              rw (inserted, failed, create_session)
                (insert_session-spent hash_val row db db' inserted ∙ h)
          | inr (db'', created) ↦
              rw (inserted, created, create_session)
                (create_epoch-spent hash_val row.id pair.hash_val db' db''
                  (insert_session-spent hash_val row db db' inserted ∙ h) created)
        ]
      ]
    where
      row : DeviceSession
      row = new_session settings user_id tenant_id remember_me pair now db.next_uuid

  refresh_family-spent :
      (family : RefreshTokenFamily) (presented : ℕ) (pair : RefreshTokenPair) (now : ℕ)
      (db : Tables)
      → spent hash_val db ≡ true
      → spent hash_val (refresh_family settings family presented pair now db).tables ≡ true
  unfolding refresh_family
  refresh_family-spent family presented pair now db h =
      elim (Bool-cases (is_some family.consumed_at)) [
        | inl used ↦ rw (used, refresh_family) h
        | inr unused ↦ elim (Option-cases (session_of_hash presented db)) [
          | inl absent ↦ rw (unused, absent, refresh_family) h
          | inr (session, found) ↦
              rw (unused, found, refresh_family) (refresh_found-spent family session pair now db h)
        ]
      ]

  refresh_session-spent :
      (hash : ℕ → ℕ) (token : ℕ) (pair : RefreshTokenPair) (now : ℕ) (db : Tables)
      → spent hash_val db ≡ true
      → spent hash_val (refresh_session settings hash token pair now db).tables ≡ true
  unfolding refresh_session
  refresh_session-spent hash token pair now db h =
      elim (Option-cases (family_of_hash (hash token) db)) [
        | inl absent ↦ rw (absent, refresh_session) h
        | inr (family, found) ↦
            rw (found, refresh_session) (refresh_family-spent family (hash token) pair now db h)
      ]

module _ (settings : Settings) (hash : ℕ → ℕ) (tenant_is_active : ℕ → Bool) (hash_val : ℕ) where
  serve-spent :
      (r : Request) (db : Tables)
      → spent hash_val db ≡ true
      → spent hash_val (serve settings hash tenant_is_active r db).1 ≡ true
  unfolding serve refresh token login logout logout_all spent family_of_hash revoke
      revoke_all_for_user
  serve-spent (logins user_id tenant_id remember_me pair now) db h =
      ground
        (arith, create_session-spent settings hash_val user_id tenant_id remember_me pair now db h)
  serve-spent (refreshes t pair now) db h =
      ground (arith, refresh_session-spent settings hash_val hash t pair now db h)
  serve-spent (asks_token t pair now) db h =
      ground (arith, refresh_session-spent settings hash_val hash t pair now db h)
  serve-spent (logs_out t now) db h = ground arith
  serve-spent (logs_out_all t now) db h = ground arith

  pub serve_all-spent :
      (rs : List Request) (db : Tables)
      → spent hash_val db ≡ true
      → spent hash_val (serve_all settings hash tenant_is_active rs db) ≡ true
  unfolding serve_all
  serve_all-spent [] db h = h
  serve_all-spent (r ∷ rs) db h = serve_all-spent rs _ (serve-spent r db h)
