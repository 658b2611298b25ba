-- ===== src/Access/Middleware.antt =====
-- `AuthenticationMiddleware.dispatch` (apps/api/app/auth/middleware.py).
use outlook_dictionary.Common.{
  ℕ, Bool, false, not, ◌||◌, Option, none, some, List, [], ◌∷◌, if◌then◌else◌, ◌==◌, is_some, ◌>>=◌,
}
use outlook_dictionary.Sql.Keyed.{get}
use outlook_dictionary.Transaction.{Transaction, run_statement, commit_all, roll_back}
use outlook_dictionary.Auth.{DeviceSession, Tables, revoke}
use outlook_dictionary.Auth.Sessions.{Settings, is_expired, is_idle}
use outlook_dictionary.Access.{
  Tenant, Membership, Identity, Role, Directory, Claims, Verified, expired, invalid, payload,
  Context, membership_of,
}

-- The exceptions that leave the middleware.
pub data AccessError : Type 0 where
  missing_token token_expired token_invalid malformed_id : AccessError
  session_revoked session_expired tenant_denied insufficient_permissions : AccessError

-- The answer: the request is passed on, with a context unless the route is public; the service is
-- unavailable; or an exception.
pub data Dispatched : Type 0 where
  passed_on : Option Context → Dispatched
  unavailable : Dispatched
  raised : AccessError → Dispatched

-- What the checks find.
pub data Verdict : Type 0 where
  admits : Context → Verdict
  refuses : AccessError → Verdict

-- A request: whether its route is public, whether there is a session factory, the bearer token if
-- the header has one, and the clock.
pub record Request : Type 0 where
  pub is_public : Bool
  pub has_factory : Bool
  pub bearer_token : Option ℕ
  pub now : ℕ

-- The identifiers of the claims.
pub record Subject : Type 0 where
  pub user_id : ℕ
  pub session_id : ℕ
  pub tenant_id : ℕ
  pub organization_id : ℕ

abbrev pub session_key : DeviceSession → ℕ
session_key s = s.id

-- `not jti or not sid or not tid or not oid or not sub`
abbrev pub lacks_claim : Claims → Bool
lacks_claim c = c.jti == 0 || (c.sid == 0 || (c.tid == 0 || (c.oid == 0 || c.sub == 0)))

-- `{role.name for role in [role] if role.name}`
abbrev pub names_of : Role → List ℕ
names_of role = if role.name == 0 then [] else role.name ∷ []

module _ (dir : Directory) (ids : Subject) where
  abbrev pub context_of : DeviceSession → Membership → Option ℕ → Role → Context
  context_of session membership provider role = record {
    user_id = ids.user_id;
    tenant_id = ids.tenant_id;
    organization_id = ids.organization_id;
    session_id = session.id;
    membership_id = some membership.id;
    role_ids = role.id ∷ [];
    role_names = names_of role;
    permissions = role.permissions;
    provider = provider;
    is_service_account = false;
  }

  -- The role of the membership.
  unfoldable pub check_role : DeviceSession → Membership → Option ℕ → Verdict
  check_role session membership provider =
      elim (get (λ (r : Role). r.id) membership.role_id dir.roles) [
        | none ↦ refuses insufficient_permissions
        | some role ↦ admits (context_of session membership provider role)
      ]

  -- The identity of the session, if it has one.
  unfoldable pub check_identity : DeviceSession → Membership → Verdict
  unfolding check_role
  check_identity session membership = elim session.identity_id [
    | none ↦ check_role session membership none
    | some id ↦ elim (get (λ (i : Identity). i.id) id dir.identities) [
      | none ↦ refuses token_invalid
      | some identity ↦ check_role session membership (some identity.provider)
    ]
  ]

  unfoldable pub check_membership : DeviceSession → Verdict
  unfolding check_identity membership_of
  check_membership session = elim (membership_of ids.user_id ids.tenant_id dir.memberships) [
    | none ↦ refuses tenant_denied
    | some membership ↦
        if not membership.is_active
        then refuses tenant_denied
        else check_identity session membership
  ]

  -- The tenant, and its organisation.
  unfoldable pub check_tenant : DeviceSession → Verdict
  unfolding check_membership
  check_tenant session = elim (get (λ (t : Tenant). t.id) ids.tenant_id dir.tenants) [
    | none ↦ refuses tenant_denied
    | some tenant ↦
        if not tenant.is_active
        then refuses tenant_denied
        else if not (tenant.organization_id == ids.organization_id)
        then refuses tenant_denied
        else check_membership session
  ]

  module _ (settings : Settings) (now : ℕ) where
    -- The session that was found. One that is over is revoked first.
    unfoldable pub check_found : DeviceSession → Tables → Tables × Verdict
    unfolding check_tenant
    check_found session t =
        if not (session.user_id == ids.user_id)
        then (t, refuses token_invalid)
        else if is_some session.revoked_at
        then (t, refuses session_revoked)
        else if is_expired now session
        then (revoke session.id now t, refuses session_expired)
        else if is_idle settings now session
        then (revoke session.id now t, refuses session_expired)
        else if not (session.tenant_id == ids.tenant_id)
        then (t, refuses tenant_denied)
        else (t, check_tenant session)

    unfoldable pub check_session : Tables → Tables × Verdict
    unfolding check_found
    check_session t = elim (get session_key ids.session_id t.sessions) [
      | none ↦ (t, refuses token_invalid)
      | some session ↦ check_found session t
    ]

-- An admission is committed; an exception rolls the transaction back.
abbrev pub conclude : Tables × Verdict → Transaction Tables → Transaction Tables × Dispatched
conclude (t, admits context) s = (commit_all (run_statement t s), passed_on (some context))
conclude (t, refuses e) s = (roll_back (run_statement t s), raised e)

-- The four identifiers, of which any may be malformed; `uuid.UUID` is a parameter.
unfoldable pub subject_of : (uuid : ℕ → Option ℕ) → Claims → Option Subject
subject_of uuid c = do
  user_id ← uuid c.sub
  session_id ← uuid c.sid
  tenant_id ← uuid c.tid
  organization_id ← uuid c.oid
  some (record {
    user_id = user_id;
    session_id = session_id;
    tenant_id = tenant_id;
    organization_id = organization_id;
  })

module _ (uuid : ℕ → Option ℕ) (verify : ℕ → Verified) (dir : Directory) (settings : Settings) where
  unfoldable pub authenticate :
      (now : ℕ) → Claims → Transaction Tables → Transaction Tables × Dispatched
  unfolding subject_of check_session run_statement commit_all roll_back
  authenticate now claims s =
      if lacks_claim claims then (s, raised token_invalid) else elim (subject_of uuid claims) [
        | none ↦ (s, raised malformed_id)
        | some ids ↦ conclude (check_session dir ids settings now s.seen) s
      ]

  abbrev pub verified : (now : ℕ) → Verified → Transaction Tables → Transaction Tables × Dispatched
  verified now expired s = (s, raised token_expired)
  verified now invalid s = (s, raised token_invalid)
  verified now (payload claims) s = authenticate now claims s

  unfoldable pub dispatch : Request → Transaction Tables → Transaction Tables × Dispatched
  unfolding authenticate
  dispatch req s =
      if req.is_public
      then (s, passed_on none)
      else if not req.has_factory
      then (s, unavailable)
      else elim req.bearer_token [
        | none ↦ (s, raised missing_token)
        | some token ↦ verified req.now (verify token) s
      ]
