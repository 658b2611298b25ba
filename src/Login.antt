-- ===== src/Login.antt =====
-- The login by Entra ID: the tables of packages/models/src/mip_models/identity_provider.py and
-- user.py, and `OAuthStateRepository.consume_state`
-- (apps/api/app/repositories/identity_provider.py).
pub mod Start
pub mod Callback
pub mod States
pub mod Kept
pub mod History
pub mod Spent
pub mod Once
use outlook_dictionary.Common.{ℕ, Bool, ◌&&◌, Option, none, some, List, ◌==◌, is_none, ltb}
use outlook_dictionary.Sql.{first, update_where}
use outlook_dictionary.Auth.{Tables}
use outlook_dictionary.Access.{Directory}

-- `OAuthState`
pub record OAuthState : Type 0 where
  pub id : ℕ
  pub state : ℕ
  pub nonce : ℕ
  pub code_verifier : ℕ
  pub expires_at : ℕ
  pub consumed_at : Option ℕ

-- `EntraTenantMapping`
pub record EntraTenantMapping : Type 0 where
  pub entra_tenant_id : ℕ
  pub tenant_id : ℕ
  pub is_active : Bool

pub record User : Type 0 where
  pub id : ℕ
  pub email : ℕ

-- `IdentityProviderCredential`
pub record IdentityCredential : Type 0 where
  pub identity_id : ℕ
  pub tenant_id : ℕ
  pub encrypted_access_token : ℕ
  pub encrypted_refresh_token : ℕ

-- All tables that a login uses; the next identifier is that of the sessions.
pub record LoginTables : Type 0 where
  pub states : List OAuthState
  pub mappings : List EntraTenantMapping
  pub users : List User
  pub directory : Directory
  pub credentials : List IdentityCredential
  pub auth : Tables

-- The WHERE test of `consume_state`.
unfoldable pub is_consumable : (state now : ℕ) → OAuthState → Bool
is_consumable state now s = s.state == state && (is_none s.consumed_at && ltb now s.expires_at)

-- `consume_state`
unfoldable pub consume_state :
    (state now : ℕ) → List OAuthState → List OAuthState × Option OAuthState
consume_state state now rows = (
  update_where (is_consumable state now) (λ s. record s { consumed_at = some now }) rows,
  first (is_consumable state now) rows,
)
