-- ===== src/Examples/Accesses.antt =====
-- Requests of two users of one tenant.
use outlook_dictionary.Common.{
  ℕ, ◌≡◌, ◌≢◌, refl, true, false, not, ◌&&◌, ◌||◌, Option, none, some, [], ◌∷◌, if◌then◌else◌,
}
use outlook_dictionary.Sql.{first, update_where}
use outlook_dictionary.Auth.{DeviceSession, Tables, revoke_all_for_user}
use outlook_dictionary.Auth.Sessions.{Settings}
use outlook_dictionary.Access.{Directory, Verified, payload, Context, membership_of}
use outlook_dictionary.Access.Middleware.{
  Request, dispatch, authenticate, subject_of, check_session, check_found, check_tenant,
  check_membership, check_identity, check_role,
}
use outlook_dictionary.Access.Shutout.{
  Answers, opened_tables, dispatch-Answers, revoked_user_shut_out,
}
use outlook_dictionary.Access.Unchanged.{dispatch-durable}
use outlook_dictionary.Access.Policy.{
  authorize, authorize-allowed, has_permission, owns, has_none, require_permission,
  require_permission_lem, holds_any, grants, forbids,
}

abbrev session : ℕ → ℕ → DeviceSession
session id user = record {
  id = id;
  user_id = user;
  tenant_id = 3;
  current_refresh_token_hash = id;
  expires_at = 100000;
  last_active_at = 100;
  revoked_at = none;
  identity_id = none;
}

-- User 7 has the session 1, user 8 the session 2.
abbrev tables : Tables
tables = record { sessions = session 1 7 ∷ session 2 8 ∷ []; families = []; next_uuid = 9 }

abbrev directory : Directory
directory = record {
  tenants = record { id = 3; organization_id = 6; is_active = true } ∷ [];
  memberships =
      record { id = 11; user_id = 7; tenant_id = 3; role_id = 20; is_active = true }
      ∷ record { id = 12; user_id = 8; tenant_id = 3; role_id = 20; is_active = true }
      ∷ [];
  identities = [];
  roles = record { id = 20; name = 30; is_system = true; permissions = (40 ∷ 41 ∷ []) ∷ [] } ∷ [];
}

abbrev settings : Settings
settings = record {
  session_remember_me_days = 30;
  session_absolute_timeout_days = 7;
  session_idle_timeout_hours = 24;
}

-- Every token is one of user 8.
abbrev verify : ℕ → Verified
verify token = payload (record { jti = 1; sid = 2; tid = 3; oid = 6; sub = 8 })

abbrev uuid : ℕ → Option ℕ
uuid text = some text

abbrev request : Request
request = record { is_public = false; has_factory = true; bearer_token = some 5; now = 200 }

abbrev context : Context
context = record {
  user_id = 8;
  tenant_id = 3;
  organization_id = 6;
  session_id = 2;
  membership_id = some 12;
  role_ids = 20 ∷ [];
  role_names = 30 ∷ [];
  permissions = (40 ∷ 41 ∷ []) ∷ [];
  provider = none;
  is_service_account = false;
}

dispatch-Answers_example :
    Answers uuid verify directory settings request tables
      (dispatch uuid verify directory settings request (opened_tables tables)).1
dispatch-Answers_example = dispatch-Answers uuid verify directory settings request tables

dispatch-durable_example :
    (dispatch uuid verify directory settings request (opened_tables tables)).0.durable ≡ tables
dispatch-durable_example = dispatch-durable uuid verify directory settings request tables

-- The sessions of user 7 were revoked, and user 8 is admitted.
revoked_user_shut_out_example : context.user_id ≢ 7
unfolding first update_where revoke_all_for_user dispatch authenticate subject_of check_session
    check_found check_tenant check_membership check_identity check_role membership_of
revoked_user_shut_out_example =
    revoked_user_shut_out uuid verify directory settings 7 150 request tables context refl

authorize-allowed_example : (authorize context 40 41 none).allowed ≡ (
    has_permission (40 ∷ 41 ∷ []) context.permissions
    || (owns context none
        && (not context.is_service_account && not (has_none context.permissions))))
authorize-allowed_example = authorize-allowed context 40 41 none

require_permission_lem_example :
    require_permission ((40 ∷ 42 ∷ []) ∷ (40 ∷ 41 ∷ []) ∷ []) context ≡ (
      if holds_any ((40 ∷ 42 ∷ []) ∷ (40 ∷ 41 ∷ []) ∷ []) context.permissions
      then grants context
      else forbids)
require_permission_lem_example =
    require_permission_lem ((40 ∷ 42 ∷ []) ∷ (40 ∷ 41 ∷ []) ∷ []) context (tt, (tt, tt))
