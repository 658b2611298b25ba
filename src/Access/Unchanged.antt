-- ===== src/Access/Unchanged.antt =====
-- The middleware and the committed sessions.
use outlook_dictionary.Common.{
  ℕ, ◌≡◌, refl, inl, inr, not, Option, none, some, ◌==◌, is_some, choose, Option-cases,
}
use outlook_dictionary.Sql.Keyed.{get}
use outlook_dictionary.Transaction.{Transaction, run_statement, commit_all, roll_back}
use outlook_dictionary.Auth.{Tables}
use outlook_dictionary.Auth.Sessions.{Settings, is_expired, is_idle}
use outlook_dictionary.Access.{Directory, Claims, Verified, expired, invalid, payload}
use outlook_dictionary.Access.Middleware.{
  Dispatched, raised, missing_token, malformed_id, Verdict, admits, refuses, Request, Subject,
  session_key, check_found, check_session, check_tenant, conclude, subject_of, authenticate,
  verified, dispatch, lacks_claim,
}
use outlook_dictionary.Access.Shutout.{opened_tables}

-- An admission leaves the tables.
abbrev Leaves : Tables → Tables × Verdict → Type 0
Leaves t (t', admits c) = t' ≡ t
Leaves t (t', refuses e) = Unit

same-Leaves : (t : Tables) (v : Verdict) → Leaves t (t, v)
same-Leaves t (admits c) = refl
same-Leaves t (refuses e) = tt

check_session-Leaves :
    (dir : Directory) (ids : Subject) (settings : Settings) (now : ℕ) (t : Tables)
    → Leaves t (check_session dir ids settings now t)
unfolding check_session check_found
check_session-Leaves dir ids settings now t =
    elim (Option-cases (get session_key ids.session_id t.sessions)) [
      | inl absent ↦ rw (absent, check_session) tt
      | inr (session, found) ↦
          rw (found, check_session)
            (choose (Leaves t) (not (session.user_id == ids.user_id)) _ _ tt (
              choose (Leaves t) (is_some session.revoked_at) _ _ tt (
                choose (Leaves t) (is_expired now session) _ _ tt (
                  choose (Leaves t) (is_idle settings now session) _ _ tt (
                    choose (Leaves t) (not (session.tenant_id == ids.tenant_id)) _ _ tt
                      (same-Leaves t (check_tenant dir ids session)))))))
    ]

abbrev Durable : Tables → Transaction Tables × Dispatched → Type 0
Durable t (s, d) = s.durable ≡ t

concluded-Durable :
    (r : Tables × Verdict) (t : Tables) → Leaves t r → Durable t (conclude r (opened_tables t))
unfolding commit_all roll_back run_statement
concluded-Durable (t', admits c) t h = h
concluded-Durable (t', refuses e) t h = refl

module _ (uuid : ℕ → Option ℕ) (verify : ℕ → Verified) (dir : Directory) (settings : Settings)
    (req : Request) (t : Tables) where
  authenticate-Durable :
      (claims : Claims)
      → Durable t (authenticate uuid verify dir settings req.now claims (opened_tables t))
  unfolding authenticate
  authenticate-Durable claims =
      choose (Durable t) (lacks_claim claims) _ _ refl (go (subject_of uuid claims))
    where
      go :
          (o : Option Subject)
          → Durable t (elim o as (λ _. Transaction Tables × Dispatched) [
            | none ↦ (opened_tables t, raised malformed_id)
            | some ids ↦ conclude (check_session dir ids settings req.now t) (opened_tables t)
          ])
      go none = refl
      go (some ids) =
          concluded-Durable (check_session dir ids settings req.now t) t
            (check_session-Leaves dir ids settings req.now t)

  -- The middleware, up to the point where it hands the request on, changes no committed session: the
  -- revocation of a session that has expired or is idle is rolled back with the exception that
  -- follows it.
  pub dispatch-durable : (dispatch uuid verify dir settings req (opened_tables t)).0.durable ≡ t
  unfolding dispatch
  dispatch-durable =
      choose (Durable t) req.is_public _ _ refl
        (choose (Durable t) (not req.has_factory) _ _ refl (go req.bearer_token))
    where
      checked :
          (v : Verified) → Durable t (verified uuid verify dir settings req.now v (opened_tables t))
      checked expired = refl
      checked invalid = refl
      checked (payload claims) = authenticate-Durable claims

      go :
          (o : Option ℕ)
          → Durable t (elim o as (λ _. Transaction Tables × Dispatched) [
            | none ↦ (opened_tables t, raised missing_token)
            | some token ↦
                verified uuid verify dir settings req.now (verify token) (opened_tables t)
          ])
      go none = refl
      go (some token) = checked (verify token)
