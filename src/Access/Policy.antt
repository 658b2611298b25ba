-- ===== src/Access/Policy.antt =====
-- `PolicyEngine` (apps/api/app/auth/policy.py) and the dependencies that use it
-- (apps/api/app/auth/dependencies.py).
use outlook_dictionary.Common.{
  ℕ, ◌≡◌, refl, Bool, true, false, not, ◌&&◌, ◌||◌, Option, none, some, List, [], ◌∷◌, arith,
  if◌then◌else◌, ◌==◌, All,
}
use outlook_dictionary.Access.{Codename, Context}

unfoldable pub codename_eq : Codename → Codename → Bool
codename_eq [] [] = true
codename_eq [] (y ∷ ys) = false
codename_eq (x ∷ xs) [] = false
codename_eq (x ∷ xs) (y ∷ ys) = x == y && codename_eq xs ys

-- `codename in permissions`
unfoldable pub has_permission : Codename → List Codename → Bool
has_permission p [] = false
has_permission p (q ∷ qs) = codename_eq p q || has_permission p qs

unfoldable pub has_all_permissions : List Codename → List Codename → Bool
has_all_permissions [] held = true
has_all_permissions (p ∷ ps) held = has_permission p held && has_all_permissions ps held

unfoldable pub has_id : ℕ → List ℕ → Bool
has_id x [] = false
has_id x (y ∷ ys) = x == y || has_id x ys

unfoldable pub has_all_ids : List ℕ → List ℕ → Bool
has_all_ids [] held = true
has_all_ids (x ∷ xs) held = has_id x held && has_all_ids xs held

-- The `reason` of a decision.
pub data DecisionReason : Type 0 where
  no_permissions resource_owner insufficient : DecisionReason

-- `AuthorizationDecision`
pub record Decision : Type 0 where
  pub allowed : Bool
  pub reason : Option DecisionReason
  pub missing_permissions : List Codename

abbrev pub has_none : List Codename → Bool
has_none [] = true
has_none (p ∷ ps) = false

-- `resource_owner_id is not None and context.user_id == resource_owner_id`
abbrev pub owns : Context → Option ℕ → Bool
owns c none = false
owns c (some owner) = c.user_id == owner

-- `authorize`
unfoldable pub authorize : Context → (resource action : ℕ) → Option ℕ → Decision
authorize c resource action owner =
    let required : Codename = resource ∷ action ∷ [] in
    if c.is_service_account
    then record {
      allowed = has_permission required c.permissions;
      reason = none;
      missing_permissions = [];
    }
    else if has_none c.permissions
    then record {
      allowed = false;
      reason = some no_permissions;
      missing_permissions = required ∷ [];
    }
    else if has_permission required c.permissions
    then record { allowed = true; reason = none; missing_permissions = [] }
    else if owns c owner
    then record { allowed = true; reason = some resource_owner; missing_permissions = [] }
    else record { allowed = false; reason = some insufficient; missing_permissions = required ∷ [] }

pub data Enforced : Type 0 where
  passes tenant_access_denied permissions_insufficient : Enforced

-- `resource_tenant_id is not None and context.tenant_id != resource_tenant_id`
abbrev pub is_foreign : Context → Option ℕ → Bool
is_foreign c none = false
is_foreign c (some tenant) = not (c.tenant_id == tenant)

abbrev pub lacks_permissions : Context → Option (List Codename) → Bool
lacks_permissions c none = false
lacks_permissions c (some required) = not (has_all_permissions required c.permissions)

abbrev pub lacks_roles : Context → Option (List ℕ) → Bool
lacks_roles c none = false
lacks_roles c (some required) = not (has_all_ids required c.role_ids)

-- `enforce`
unfoldable pub enforce : Context → Option (List Codename) → Option (List ℕ) → Option ℕ → Enforced
enforce c permissions roles tenant =
    if is_foreign c tenant
    then tenant_access_denied
    else if lacks_permissions c permissions
    then permissions_insufficient
    else if lacks_roles c roles
    then permissions_insufficient
    else passes

-- What a dependency does: it returns the context, or raises; the last is the error of a permission
-- without a dot.
pub data Guarded : Type 0 where
  grants : Context → Guarded
  forbids no_context no_membership bad_permission : Guarded

-- `_dependency` of `require_permission`
unfoldable pub require_permission : List Codename → Context → Guarded
unfolding authorize
require_permission [] c = forbids
require_permission ([] ∷ ps) c = bad_permission
require_permission ((resource ∷ []) ∷ ps) c = bad_permission
require_permission ((resource ∷ action ∷ more) ∷ ps) c =
    let rest = require_permission ps c in
    if (authorize c resource action none).allowed then grants c else rest

-- `_dependency` of `require_role`
unfoldable pub require_role : List ℕ → Context → Guarded
require_role [] c = forbids
require_role (r ∷ rs) c =
    let rest = require_role rs c in if has_id r c.role_names then grants c else rest

-- `get_auth_context` before a dependency
unfoldable pub guard : (Context → Guarded) → Option Context → Guarded
guard dependency none = no_context
guard dependency (some c) = dependency c

-- `_dependency` of `require_tenant_membership`
unfoldable pub require_tenant_membership : Context → Guarded
require_tenant_membership c = elim c.membership_id [ none ↦ no_membership | some id ↦ grants c ]

has_none-has_permission :
    (p : Codename) (ps : List Codename) → has_none ps ≡ true → has_permission p ps ≡ false
unfolding has_permission
has_none-has_permission p [] e = refl
has_none-has_permission p (q ∷ qs) e = cc

-- An action is allowed exactly if the permission is held, or if the user owns the resource, is no
-- service account and holds any permission at all.
pub authorize-allowed :
    (c : Context) (resource action : ℕ) (owner : Option ℕ)
    → (authorize c resource action owner).allowed ≡ (
        has_permission (resource ∷ action ∷ []) c.permissions
        || (owns c owner && (not c.is_service_account && not (has_none c.permissions))))
unfolding authorize
authorize-allowed c resource action owner =
    ground (arith, has_none-has_permission (resource ∷ action ∷ []) c.permissions)

-- A permission of the form resource.action.
abbrev pub IsPair : Codename → Type 0
IsPair [] = ⊥
IsPair (a ∷ []) = ⊥
IsPair (a ∷ b ∷ []) = Unit
IsPair (a ∷ b ∷ c ∷ ps) = ⊥

-- Some permission of the list is held.
unfoldable pub holds_any : List Codename → List Codename → Bool
holds_any [] held = false
holds_any (p ∷ ps) held = has_permission p held || holds_any ps held

-- If every permission asked for is of the form resource.action, the dependency grants the context
-- if one of them is held, and forbids the request otherwise.
pub require_permission_lem :
    (required : List Codename) (c : Context)
    → All IsPair required
    → require_permission required c
      ≡ (if holds_any required c.permissions then grants c else forbids)
unfolding require_permission holds_any
require_permission_lem [] c pairs = refl
require_permission_lem ([] ∷ ps) c pairs = absurd pairs.0
require_permission_lem ((a ∷ []) ∷ ps) c pairs = absurd pairs.0
require_permission_lem ((a ∷ b ∷ x ∷ more) ∷ ps) c pairs = absurd pairs.0
require_permission_lem ((a ∷ b ∷ []) ∷ ps) c pairs =
    ground (arith, authorize-allowed c a b none, require_permission_lem ps c pairs.1)
