-- ===== src/Access/Admission.antt =====
-- Who is admitted by the middleware.
use outlook_dictionary.Common.{
  ℕ, ◌≡◌, refl, inl, inr, true, false, not, Option, none, some, arith, ◌==◌, is_some, choose,
  choose_by, Option-cases,
}
use outlook_dictionary.Sql.Keyed.{get}
use outlook_dictionary.Auth.{DeviceSession, Tables}
use outlook_dictionary.Auth.Sessions.{Settings, is_expired, is_idle}
use outlook_dictionary.Access.{
  Tenant, Membership, Identity, Role, Directory, Context, membership_of,
}
use outlook_dictionary.Access.Middleware.{
  token_invalid, Verdict, admits, refuses, Subject, session_key, context_of, check_role,
  check_identity, check_membership, check_tenant, check_found, check_session,
}

module _ (dir : Directory) (ids : Subject) where
  -- A context that the directory grounds: the tenant is active and of the organisation of the
  -- claims, the membership is active, and the role and its permissions are those of the membership.
  pub record IsGrounded (c : Context) : Type 0 where
    pub tenant : Tenant
    pub tenant_found : get (λ (t : Tenant). t.id) ids.tenant_id dir.tenants ≡ some tenant
    pub tenant_active : tenant.is_active ≡ true
    pub organization : tenant.organization_id ≡ ids.organization_id
    pub membership : Membership
    pub member : membership_of ids.user_id ids.tenant_id dir.memberships ≡ some membership
    pub role : Role
    pub role_found : get (λ (r : Role). r.id) membership.role_id dir.roles ≡ some role
    pub permissions : c.permissions ≡ role.permissions
    pub user_id : c.user_id ≡ ids.user_id
    pub tenant_id : c.tenant_id ≡ ids.tenant_id

  abbrev pub Grounds : (Context → Type 0) → Verdict → Type 0
  Grounds P (admits c) = P c
  Grounds P (refuses e) = Unit

  module _ (session : DeviceSession) (P : Context → Type 0) where
    check_role-Grounds :
        (m : Membership) (provider : Option ℕ)
        → ((role : Role)
            → get (λ (r : Role). r.id) m.role_id dir.roles ≡ some role
            → P (context_of dir ids session m provider role))
        → Grounds P (check_role dir ids session m provider)
    unfolding check_role
    check_role-Grounds m provider grounds =
        elim (Option-cases (get (λ (r : Role). r.id) m.role_id dir.roles)) [
          | inl absent ↦ rw (absent, check_role) tt
          | inr (role, found) ↦ rw (found, check_role) (grounds role found)
        ]

    check_identity-Grounds :
        (m : Membership)
        → ((role : Role) (provider : Option ℕ)
            → get (λ (r : Role). r.id) m.role_id dir.roles ≡ some role
            → P (context_of dir ids session m provider role))
        → Grounds P (check_identity dir ids session m)
    unfolding check_identity
    check_identity-Grounds m grounds = go session.identity_id
      where
        found :
            (o : Option Identity)
            → Grounds P (elim o as (λ _. Verdict) [
              | none ↦ refuses token_invalid
              | some identity ↦ check_role dir ids session m (some identity.provider)
            ])
        found none = tt
        found (some i) =
            check_role-Grounds m (some i.provider) (λ role e. grounds role (some i.provider) e)

        go :
            (o : Option ℕ)
            → Grounds P (elim o as (λ _. Verdict) [
              | none ↦ check_role dir ids session m none
              | some id ↦ elim (get (λ (i : Identity). i.id) id dir.identities) [
                | none ↦ refuses token_invalid
                | some identity ↦ check_role dir ids session m (some identity.provider)
              ]
            ])
        go none = check_role-Grounds m none (λ role e. grounds role none e)
        go (some id) = found (get (λ (i : Identity). i.id) id dir.identities)

  check_membership-Grounds :
      (session : DeviceSession) (tenant : Tenant)
      → get (λ (t : Tenant). t.id) ids.tenant_id dir.tenants ≡ some tenant
      → tenant.is_active ≡ true
      → tenant.organization_id ≡ ids.organization_id
      → Grounds IsGrounded (check_membership dir ids session)
  unfolding check_membership
  check_membership-Grounds session tenant found active organization =
      elim (Option-cases (membership_of ids.user_id ids.tenant_id dir.memberships)) [
        | inl absent ↦ rw (absent, check_membership) tt
        | inr (m, member) ↦
            rw (member, check_membership)
              (choose (Grounds IsGrounded) (not m.is_active) _ _ tt (
                check_identity-Grounds session IsGrounded m (λ role provider e. record {
                  tenant = tenant;
                  tenant_found = found;
                  tenant_active = active;
                  organization = organization;
                  membership = m;
                  member = member;
                  role = role;
                  role_found = e;
                  permissions = refl;
                  user_id = refl;
                  tenant_id = refl;
                })))
      ]

  check_tenant-Grounds :
      (session : DeviceSession) → Grounds IsGrounded (check_tenant dir ids session)
  unfolding check_tenant
  check_tenant-Grounds session =
      elim (Option-cases (get (λ (t : Tenant). t.id) ids.tenant_id dir.tenants)) [
        | inl absent ↦ rw (absent, check_tenant) tt
        | inr (tenant, found) ↦
            rw (found, check_tenant)
              (choose_by (Grounds IsGrounded) (not tenant.is_active) _ _ (λ _. tt)
                (λ active.
                  choose_by (Grounds IsGrounded)
                    (not (tenant.organization_id == ids.organization_id)) _ _ (λ _. tt)
                    (λ same.
                      check_membership-Grounds session tenant found (ground (arith, active))
                        (ground (arith, same)))))
      ]

  module _ (settings : Settings) (now : ℕ) (t : Tables) where
    -- The session of an admitted request is there, of the user and the tenant of the claims, and
    -- neither revoked nor expired nor idle; and the context is grounded.
    pub record IsAdmissible (c : Context) : Type 0 where
      pub session : DeviceSession
      pub found : get session_key ids.session_id t.sessions ≡ some session
      pub user : session.user_id ≡ ids.user_id
      pub tenant : session.tenant_id ≡ ids.tenant_id
      pub unrevoked : session.revoked_at ≡ none
      pub unexpired : is_expired now session ≡ false
      pub in_use : is_idle settings now session ≡ false
      pub grounded : IsGrounded c

    abbrev pub GroundsPair : Tables × Verdict → Type 0
    GroundsPair (_, v) = Grounds IsAdmissible v

    admissible :
        (session : DeviceSession) (v : Verdict)
        → ((c : Context) → IsGrounded c → IsAdmissible c)
        → Grounds IsGrounded v
        → Grounds IsAdmissible v
    admissible session (admits c) f h = f c h
    admissible session (refuses e) f h = tt

    pub check_session-Grounds : GroundsPair (check_session dir ids settings now t)
    unfolding check_session check_found
    check_session-Grounds = elim (Option-cases (get session_key ids.session_id t.sessions)) [
      | inl absent ↦ rw (absent, check_session) tt
      | inr (session, found) ↦
          rw (found, check_session)
            (choose_by GroundsPair (not (session.user_id == ids.user_id)) _ _ (λ _. tt)
              (λ user.
                choose_by GroundsPair (is_some session.revoked_at) _ _ (λ _. tt)
                  (λ live.
                    choose_by GroundsPair (is_expired now session) _ _ (λ _. tt)
                      (λ unexpired.
                        choose_by GroundsPair (is_idle settings now session) _ _ (λ _. tt)
                          (λ in_use.
                            choose_by GroundsPair (not (session.tenant_id == ids.tenant_id)) _ _
                              (λ _. tt)
                              (λ tenant.
                                admissible session (check_tenant dir ids session)
                                  (λ c grounded. record {
                                    session = session;
                                    found = found;
                                    user = ground (arith, user);
                                    tenant = ground (arith, tenant);
                                    unrevoked = ground (arith, live);
                                    unexpired = unexpired;
                                    in_use = in_use;
                                    grounded = grounded;
                                  })
                                  (check_tenant-Grounds session)))))))
    ]
