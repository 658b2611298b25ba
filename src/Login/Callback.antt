-- ===== src/Login/Callback.antt =====
-- `ProviderAuthService.handle_callback` (apps/api/app/services/identity_provider.py) and the endpoint
-- POST /auth/callback/entra (apps/api/app/api/auth/entra_router.py).
use outlook_dictionary.Common.{
  Bool, ℕ, ◌+◌, true, false, not, ◌&&◌, ◌||◌, Option, none, some, [], ◌∷◌, ◌++◌, if◌then◌else◌,
  ◌==◌, is_some,
}
use outlook_dictionary.Sql.{first, update_where}
use outlook_dictionary.Sql.Keyed.{get}
use outlook_dictionary.Auth.{DeviceSession, Tables}
use outlook_dictionary.Auth.Sessions.{Settings, RefreshTokenPair, Outcome, issued, create_session}
use outlook_dictionary.Access.{Tenant, Identity, Role, membership_of}
use outlook_dictionary.Login.{OAuthState, EntraTenantMapping, LoginTables, consume_state}

-- `IdentityVerificationResult`; the tenant is `none` where it is no text, and 0 is the empty text.
pub record Verification : Type 0 where
  pub entra_tenant_id : Option ℕ
  pub provider_user_id : ℕ
  pub provider_email : Option ℕ
  pub access_token : ℕ
  pub refresh_token : ℕ

-- How a callback ends: tokens, `ProviderAuthError`, or another exception.
pub data CallbackResult : Type 0 where
  logged_in : DeviceSession → RefreshTokenPair → CallbackResult
  provider_auth_error unexpected_error : CallbackResult

-- What surrounds a callback: the clock, `validate_callback` of the provider, the next token pair,
-- the cipher, the role name "member", the address that is made of the user's id where the provider
-- gives none, and what `identity.user.tenant_id` gives, which is an error where it is `none`: the
-- class `User` maps no such attribute.
pub record CallbackWorld : Type 0 where
  pub now : ℕ
  pub validate : OAuthState → Option Verification
  pub pair : RefreshTokenPair
  pub raises_for : ℕ → Bool
  pub encrypt : ℕ → ℕ
  pub member_role : ℕ
  pub made_up_email : ℕ → ℕ
  pub tenant_attribute : ℕ → Option ℕ
  pub settings : Settings

abbrev pub Step : Type 0
Step = CallbackResult × LoginTables

abbrev pub microsoft : ℕ
microsoft = 1

module _ (world : CallbackWorld) where
  -- `_store_credentials`; `none` is an error of the encryption, or of the unique identity.
  unfoldable pub store_credentials :
      (identity_id tenant_id : ℕ) → Verification → LoginTables → Option LoginTables
  store_credentials identity_id tenant_id v t =
      if v.access_token == 0 || v.refresh_token == 0
      then some t
      else if world.raises_for v.access_token || world.raises_for v.refresh_token
      then none
      else if is_some (first (λ c. c.identity_id == identity_id) t.credentials)
      then none
      else some (record t {
        credentials =
            t.credentials
            ++ record {
              identity_id = identity_id;
              tenant_id = tenant_id;
              encrypted_access_token = world.encrypt v.access_token;
              encrypted_refresh_token = world.encrypt v.refresh_token;
            }
              ∷ [];
      })

  abbrev pub with_session :
      DeviceSession → RefreshTokenPair → LoginTables → Option LoginTables → Step
  with_session session pair t none = (unexpected_error, t)
  with_session session pair t (some t') = (logged_in session pair, t')

  -- The session, its identity, and the credentials.
  abbrev pub open_session :
      (user_id identity_id tenant_id : ℕ) → Verification → LoginTables → Outcome → Tables → Step
  open_session user_id identity_id tenant_id v t (issued session pair) auth =
      with_session session pair t (
        store_credentials identity_id tenant_id v (record t {
          auth = record auth {
            sessions =
                update_where (λ s. s.id == session.id)
                  (λ s. record s { identity_id = some identity_id }) auth.sessions;
          };
        }))
  open_session user_id identity_id tenant_id v t _ auth = (unexpected_error, t)

  -- From the membership on.
  unfoldable pub finish_login :
      (user_id identity_id tenant_id : ℕ) → Verification → LoginTables → Step
  unfolding membership_of store_credentials create_session
  finish_login user_id identity_id tenant_id v t =
      elim (membership_of user_id tenant_id t.directory.memberships) [
        | none ↦ (provider_auth_error, t)
        | some membership ↦
            let made =
              create_session world.settings user_id tenant_id false world.pair world.now t.auth in
            open_session user_id identity_id tenant_id v t made.outcome made.tables
      ]

  abbrev pub email_of : Verification → ℕ
  email_of v = elim v.provider_email [
    | none ↦ world.made_up_email v.provider_user_id
    | some email ↦ if email == 0 then world.made_up_email v.provider_user_id else email
  ]

  -- `_jit_provision_user` and `_create_identity`: the user, the membership and the identity, whose
  -- identifiers are the next three.
  unfoldable pub provision_user : Tenant → Role → Verification → LoginTables → LoginTables
  provision_user tenant role v t =
      let n = t.auth.next_uuid in
      record t {
        users = t.users ++ record { id = n; email = email_of v } ∷ [];
        directory = record t.directory {
          memberships =
              t.directory.memberships
              ++ record {
                id = n + 1;
                user_id = n;
                tenant_id = tenant.id;
                role_id = role.id;
                is_active = true;
              }
                ∷ [];
          identities =
              t.directory.identities
              ++ record {
                id = n + 2;
                user_id = n;
                provider = microsoft;
                provider_user_id = v.provider_user_id;
              }
                ∷ [];
        };
        auth = record t.auth { next_uuid = n + 3 };
      }

  -- A user who is not known; the address of a user is unique.
  unfoldable pub login_new : Tenant → Verification → LoginTables → Step
  unfolding finish_login provision_user
  login_new tenant v t =
      if is_some (first (λ u. u.email == email_of v) t.users)
      then (unexpected_error, t)
      else elim (first (λ r. r.name == world.member_role && r.is_system) t.directory.roles) [
        | none ↦ (provider_auth_error, t)
        | some role ↦
            finish_login t.auth.next_uuid (t.auth.next_uuid + 2) tenant.id v
              (provision_user tenant role v t)
      ]

  -- A user with an identity.
  unfoldable pub login_known : Tenant → Identity → Verification → LoginTables → Step
  unfolding finish_login
  login_known tenant identity v t = elim (world.tenant_attribute identity.user_id) [
    | none ↦ (unexpected_error, t)
    | some tenant_id ↦
        if not (tenant_id == tenant.id)
        then (provider_auth_error, t)
        else finish_login identity.user_id identity.id tenant.id v t
  ]

  -- The tenant of the mapping.
  unfoldable pub login_in : Verification → EntraTenantMapping → LoginTables → Step
  unfolding login_known login_new
  login_in v mapping t = elim (get (λ (x : Tenant). x.id) mapping.tenant_id t.directory.tenants) [
    | none ↦ (provider_auth_error, t)
    | some tenant ↦
        if not tenant.is_active
        then (provider_auth_error, t)
        else elim (first (λ i. i.provider == microsoft && i.provider_user_id == v.provider_user_id)
            t.directory.identities) [
              | none ↦ login_new tenant v t
              | some identity ↦ login_known tenant identity v t
            ]
  ]

  -- The verified callback: the mapping is looked up, but not whether it is active.
  unfoldable pub login_verified : Verification → LoginTables → Step
  unfolding login_in
  login_verified v t = elim v.entra_tenant_id [
    | none ↦ (provider_auth_error, t)
    | some entra ↦
        if entra == 0
        then (provider_auth_error, t)
        else elim (first (λ m. m.entra_tenant_id == entra) t.mappings) [
          | none ↦ (provider_auth_error, t)
          | some mapping ↦ login_in v mapping t
        ]
  ]

  unfoldable pub handle_callback : (state : ℕ) → LoginTables → Step
  unfolding login_verified consume_state
  handle_callback state t =
      let (rows, consumed) = consume_state state world.now t.states in
      let t' = record t { states = rows } in
      elim consumed [
        | none ↦ (provider_auth_error, t')
        | some row ↦ elim (world.validate row) [
          | none ↦ (provider_auth_error, t')
          | some v ↦ login_verified v t'
        ]
      ]

  -- The endpoint: a success is committed, an exception rolls back.
  abbrev pub end_callback : LoginTables → Step → Step
  end_callback before (logged_in session pair, after) = (logged_in session pair, after)
  end_callback before (provider_auth_error, after) = (provider_auth_error, before)
  end_callback before (unexpected_error, after) = (unexpected_error, before)

  unfoldable pub entra_callback : (state : ℕ) → LoginTables → Step
  unfolding handle_callback
  entra_callback state t = end_callback t (handle_callback state t)
