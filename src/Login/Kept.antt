-- ===== src/Login/Kept.antt =====
-- A verified login leaves the states alone.
use outlook_dictionary.Common.{
  ℕ, ◌+◌, ◌≡◌, refl, false, not, ◌&&◌, ◌||◌, Option, none, some, List, if◌then◌else◌, ◌==◌, is_some,
  choose,
}
use outlook_dictionary.Sql.{first}
use outlook_dictionary.Sql.Keyed.{get}
use outlook_dictionary.Auth.{DeviceSession, Tables}
use outlook_dictionary.Auth.Sessions.{Outcome, issued, RefreshTokenPair, create_session}
use outlook_dictionary.Access.{Tenant, Membership, Identity, Role, membership_of}
use outlook_dictionary.Login.{OAuthState, EntraTenantMapping, LoginTables}
use outlook_dictionary.Login.Callback.{
  Verification, provider_auth_error, unexpected_error, CallbackWorld, Step, store_credentials,
  with_session, open_session, finish_login, email_of, provision_user, login_new, login_known,
  login_in, login_verified, microsoft,
}

module _ (world : CallbackWorld) where
  -- The later steps leave the states.
  abbrev pub Keeps : List OAuthState → Step → Type 0
  Keeps rows (r, t) = t.states ≡ rows

  abbrev KeepsSome : List OAuthState → Option LoginTables → Type 0
  KeepsSome rows none = Unit
  KeepsSome rows (some t) = t.states ≡ rows

  store_credentials-Keeps :
      (identity_id tenant_id : ℕ) (v : Verification) (t : LoginTables)
      → KeepsSome t.states (store_credentials world identity_id tenant_id v t)
  unfolding store_credentials
  store_credentials-Keeps identity_id tenant_id v t =
      choose (KeepsSome t.states) (v.access_token == 0 || v.refresh_token == 0) _ _ refl (
        choose (KeepsSome t.states)
          (world.raises_for v.access_token || world.raises_for v.refresh_token) _ _ tt
          (choose (KeepsSome t.states)
            (is_some (first (λ c. c.identity_id == identity_id) t.credentials)) _ _ tt refl))

  with_session-Keeps :
      (session : DeviceSession) (pair : RefreshTokenPair) (t : LoginTables) (o : Option LoginTables)
      → KeepsSome t.states o
      → Keeps t.states (with_session world session pair t o)
  with_session-Keeps session pair t none h = refl
  with_session-Keeps session pair t (some t') h = h

  finish_login-Keeps :
      (user_id identity_id tenant_id : ℕ) (v : Verification) (t : LoginTables)
      → Keeps t.states (finish_login world user_id identity_id tenant_id v t)
  unfolding finish_login
  finish_login-Keeps user_id identity_id tenant_id v t =
      go (membership_of user_id tenant_id t.directory.memberships)
    where
      opens :
          (o : Outcome) (auth : Tables)
          → Keeps t.states (open_session world user_id identity_id tenant_id v t o auth)
      opens (issued session pair) auth =
          with_session-Keeps session pair t _ (store_credentials-Keeps identity_id tenant_id v _)
      opens Outcome.token_invalid_error auth = refl
      opens Outcome.refresh_token_reused_error auth = refl
      opens Outcome.session_expired_error auth = refl
      opens Outcome.integrity_error auth = refl

      go :
          (m : Option Membership)
          → Keeps t.states (elim m as (λ _. Step) [
            | none ↦ (provider_auth_error, t)
            | some membership ↦
                open_session world user_id identity_id tenant_id v t
                  (create_session world.settings user_id tenant_id false world.pair world.now
                    t.auth).outcome
                  (create_session world.settings user_id tenant_id false world.pair world.now
                    t.auth).tables
          ])
      go none = refl
      go (some m) =
          opens
            (create_session world.settings user_id tenant_id false world.pair world.now
              t.auth).outcome
            (create_session world.settings user_id tenant_id false world.pair world.now
              t.auth).tables

  login_new-Keeps :
      (tenant : Tenant) (v : Verification) (t : LoginTables)
      → Keeps t.states (login_new world tenant v t)
  unfolding login_new provision_user
  login_new-Keeps tenant v t =
      choose (Keeps t.states) (is_some (first (λ u. u.email == email_of world v) t.users)) _ _ refl
        (go (first (λ r. r.name == world.member_role && r.is_system) t.directory.roles))
    where
      go :
          (o : Option Role)
          → Keeps t.states (elim o as (λ _. Step) [
            | none ↦ (provider_auth_error, t)
            | some role ↦
                finish_login world t.auth.next_uuid
                  (t.auth.next_uuid + 2)
                  tenant.id
                  v
                  (provision_user world tenant role v t)
          ])
      go none = refl
      go (some role) =
          finish_login-Keeps t.auth.next_uuid (t.auth.next_uuid + 2) tenant.id v
            (provision_user world tenant role v t)

  login_known-Keeps :
      (tenant : Tenant) (identity : Identity) (v : Verification) (t : LoginTables)
      → Keeps t.states (login_known world tenant identity v t)
  unfolding login_known
  login_known-Keeps tenant identity v t = go (world.tenant_attribute identity.user_id)
    where
      go :
          (o : Option ℕ)
          → Keeps t.states (elim o as (λ _. Step) [
            | none ↦ (unexpected_error, t)
            | some tenant_id ↦
                if not (tenant_id == tenant.id)
                then (provider_auth_error, t)
                else finish_login world identity.user_id identity.id tenant.id v t
          ])
      go none = refl
      go (some tenant_id) =
          choose (Keeps t.states) (not (tenant_id == tenant.id)) _ _ refl
            (finish_login-Keeps identity.user_id identity.id tenant.id v t)

  login_in-Keeps :
      (v : Verification) (mapping : EntraTenantMapping) (t : LoginTables)
      → Keeps t.states (login_in world v mapping t)
  unfolding login_in
  login_in-Keeps v mapping t =
      at_tenant (get (λ (x : Tenant). x.id) mapping.tenant_id t.directory.tenants)
    where
      known : Option Identity
      known =
          first (λ i. i.provider == microsoft && i.provider_user_id == v.provider_user_id)
            t.directory.identities

      at_identity :
          (tenant : Tenant) (o : Option Identity)
          → Keeps t.states (elim o as (λ _. Step) [
            | none ↦ login_new world tenant v t
            | some identity ↦ login_known world tenant identity v t
          ])
      at_identity tenant none = login_new-Keeps tenant v t
      at_identity tenant (some identity) = login_known-Keeps tenant identity v t

      at_tenant :
          (o : Option Tenant)
          → Keeps t.states (elim o as (λ _. Step) [
            | none ↦ (provider_auth_error, t)
            | some tenant ↦ if not tenant.is_active then (provider_auth_error, t) else elim known [
              | none ↦ login_new world tenant v t
              | some identity ↦ login_known world tenant identity v t
            ]
          ])
      at_tenant none = refl
      at_tenant (some tenant) =
          choose (Keeps t.states) (not tenant.is_active) _ _ refl (at_identity tenant known)

  pub login_verified-Keeps :
      (v : Verification) (t : LoginTables) → Keeps t.states (login_verified world v t)
  unfolding login_verified
  login_verified-Keeps v t = at_claim v.entra_tenant_id
    where
      at_mapping :
          (o : Option EntraTenantMapping)
          → Keeps t.states (elim o as (λ _. Step) [
            | none ↦ (provider_auth_error, t)
            | some mapping ↦ login_in world v mapping t
          ])
      at_mapping none = refl
      at_mapping (some mapping) = login_in-Keeps v mapping t

      at_claim :
          (o : Option ℕ)
          → Keeps t.states (elim o as (λ _. Step) [
            | none ↦ (provider_auth_error, t)
            | some entra ↦
                if entra == 0
                then (provider_auth_error, t)
                else elim (first (λ m. m.entra_tenant_id == entra) t.mappings) [
                  | none ↦ (provider_auth_error, t)
                  | some mapping ↦ login_in world v mapping t
                ]
          ])
      at_claim none = refl
      at_claim (some entra) =
          choose (Keeps t.states) (entra == 0) _ _ refl
            (at_mapping (first (λ m. m.entra_tenant_id == entra) t.mappings))
