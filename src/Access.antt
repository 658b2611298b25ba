-- ===== src/Access.antt =====
-- The authentication and authorisation of requests: the tables that the middleware reads
-- (packages/models/src/mip_models/tenant.py, user.py and auth.py), the claims of an access token, and
-- the context that it attaches (apps/api/app/auth/context.py).
pub mod Middleware
pub mod Admission
pub mod Shutout
pub mod Unchanged
pub mod Policy
use outlook_dictionary.Common.{ℕ, Bool, ◌&&◌, Option, none, some, List, ◌==◌}
use outlook_dictionary.Sql.{first}

pub record Tenant : Type 0 where
  pub id : ℕ
  pub organization_id : ℕ
  pub is_active : Bool

pub record Membership : Type 0 where
  pub id : ℕ
  pub user_id : ℕ
  pub tenant_id : ℕ
  pub role_id : ℕ
  pub is_active : Bool

-- `Identity`; the provider "microsoft" is 1.
pub record Identity : Type 0 where
  pub id : ℕ
  pub user_id : ℕ
  pub provider : ℕ
  pub provider_user_id : ℕ

-- A permission's codename is the list of its parts between the dots.
abbrev pub Codename : Type 0
Codename = List ℕ

-- `Role`, with the codenames of its permissions; 0 is the empty name.
pub record Role : Type 0 where
  pub id : ℕ
  pub name : ℕ
  pub is_system : Bool
  pub permissions : List Codename

-- The tables that a request does not change.
pub record Directory : Type 0 where
  pub tenants : List Tenant
  pub memberships : List Membership
  pub identities : List Identity
  pub roles : List Role

-- The claims that are read; 0 is the empty text.
pub record Claims : Type 0 where
  pub jti : ℕ
  pub sid : ℕ
  pub tid : ℕ
  pub oid : ℕ
  pub sub : ℕ

-- `verify_access_token`
pub data Verified : Type 0 where
  expired invalid : Verified
  payload : Claims → Verified

-- `AuthenticationContext`, less the fields that only describe the request.
pub record Context : Type 0 where
  pub user_id : ℕ
  pub tenant_id : ℕ
  pub organization_id : ℕ
  pub session_id : ℕ
  pub membership_id : Option ℕ
  pub role_ids : List ℕ
  pub role_names : List ℕ
  pub permissions : List Codename
  pub provider : Option ℕ
  pub is_service_account : Bool

-- `get_by_user_and_tenant`
unfoldable pub membership_of : (user_id tenant_id : ℕ) → List Membership → Option Membership
membership_of user_id tenant_id rows =
    first (λ m. m.user_id == user_id && (m.tenant_id == tenant_id && m.is_active)) rows
