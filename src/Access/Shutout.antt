-- ===== src/Access/Shutout.antt =====
-- What an admission by the middleware rests on, and whom it shuts out.
use outlook_dictionary.Common.{
  ℕ, ◌≡◌, ◌≢◌, refl, sym, ◌∙◌, inl, inr, true, false, not, ◌&&◌, Option, none, some, arith, ◌==◌,
  is_none, choose, choose_by, Option-cases,
}
use mathlib.Core.Path.{subst}
use outlook_dictionary.Sql.Keyed.{get, first-update}
use outlook_dictionary.Transaction.{Transaction}
use outlook_dictionary.Auth.{DeviceSession, Tables, revoke_all_for_user, revoked_now}
use outlook_dictionary.Auth.Sessions.{Settings}
use outlook_dictionary.Access.{Directory, Claims, Verified, expired, invalid, payload, Context}
use outlook_dictionary.Access.Middleware.{
  Dispatched, passed_on, raised, unavailable, missing_token, malformed_id, Verdict, admits, refuses,
  Request, Subject, session_key, check_session, conclude, subject_of, authenticate, verified,
  dispatch, lacks_claim,
}
use outlook_dictionary.Access.Admission.{IsAdmissible, GroundsPair, check_session-Grounds}

-- A session that was just opened.
abbrev pub opened_tables : Tables → Transaction Tables
opened_tables t = record { seen = t; durable = t; in_transaction = false }

module _ (uuid : ℕ → Option ℕ) (verify : ℕ → Verified) (dir : Directory) (settings : Settings) where
  -- The reasons for a context on a request.
  pub record IsJustified (req : Request) (t : Tables) (c : Context) : Type 0 where
    pub token : ℕ
    pub bearer : req.bearer_token ≡ some token
    pub claims : Claims
    pub accepted : verify token ≡ payload claims
    pub ids : Subject
    pub named : subject_of uuid claims ≡ some ids
    pub admissible : IsAdmissible dir ids settings req.now t c

  -- What an answer tells of the request.
  abbrev pub Answers : Request → Tables → Dispatched → Type 0
  Answers req t (passed_on none) = req.is_public ≡ true
  Answers req t (passed_on (some c)) = IsJustified req t c
  Answers req t unavailable = req.has_factory ≡ false
  Answers req t (raised e) = Unit

  module _ (req : Request) (t : Tables) where
    abbrev AnswersPair : Transaction Tables × Dispatched → Type 0
    AnswersPair (_, d) = Answers req t d

    concluded :
        (ids : Subject) (r : Tables × Verdict) (s : Transaction Tables)
        → ((c : Context) → IsAdmissible dir ids settings req.now t c → IsJustified req t c)
        → GroundsPair dir ids settings req.now t r
        → AnswersPair (conclude r s)
    concluded ids (t', admits c) s justifies h = justifies c h
    concluded ids (t', refuses e) s justifies h = tt

    authenticate-Answers :
        (token : ℕ) (claims : Claims)
        → req.bearer_token ≡ some token
        → verify token ≡ payload claims
        → AnswersPair (authenticate uuid verify dir settings req.now claims (opened_tables t))
    unfolding authenticate
    authenticate-Answers token claims bearer accepted =
        choose AnswersPair (lacks_claim claims) _ _ tt (go (subject_of uuid claims) refl)
      where
        go :
            (o : Option Subject)
            → subject_of uuid claims ≡ o
            → AnswersPair (elim o as (λ _. Transaction Tables × Dispatched) [
              | none ↦ (opened_tables t, raised malformed_id)
              | some ids ↦ conclude (check_session dir ids settings req.now t) (opened_tables t)
            ])
        go none e = tt
        go (some ids) e =
            concluded ids (check_session dir ids settings req.now t) (opened_tables t)
              (λ c admissible. record {
                token = token;
                bearer = bearer;
                claims = claims;
                accepted = accepted;
                ids = ids;
                named = e;
                admissible = admissible;
              })
              (check_session-Grounds dir ids settings req.now t)

    -- A request is passed on without a context only on a public route; with a context only if its
    -- token is verified, the session of the token is there, of the user and tenant of the claims,
    -- neither revoked nor expired nor idle, and tenant, membership and role are in order.
    pub dispatch-Answers : Answers req t (dispatch uuid verify dir settings req (opened_tables t)).1
    unfolding dispatch
    dispatch-Answers =
        choose_by AnswersPair req.is_public _ _ (λ public. public)
          (λ _.
            choose_by AnswersPair (not req.has_factory) _ _ (λ missing. ground (arith, missing))
              (λ _. go req.bearer_token refl))
      where
        checked :
            (token : ℕ) (v : Verified)
            → req.bearer_token ≡ some token
            → verify token ≡ v
            → AnswersPair (verified uuid verify dir settings req.now v (opened_tables t))
        checked token expired bearer e = tt
        checked token invalid bearer e = tt
        checked token (payload claims) bearer e = authenticate-Answers token claims bearer e

        go :
            (o : Option ℕ)
            → req.bearer_token ≡ o
            → AnswersPair (elim o as (λ _. Transaction Tables × Dispatched) [
              | none ↦ (opened_tables t, raised missing_token)
              | some token ↦
                  verified uuid verify dir settings req.now (verify token) (opened_tables t)
            ])
        go none e = tt
        go (some token) e = checked token (verify token) e refl

  -- A row of the user is revoked after the revocation of all.
  revoked_row :
      (id user now : ℕ) (t : Tables) (s : DeviceSession)
      → get session_key id (revoke_all_for_user user now t).sessions ≡ some s
      → s.revoked_at ≡ none
      → s.user_id ≢ user
  unfolding revoke_all_for_user
  revoked_row id user now t s found live same =
      elim (Option-cases (get session_key id t.sessions)) [
        | inl absent ↦ ground (
          arith,
          first-update (λ r. r.id == id) (λ r. r.user_id == user && is_none r.revoked_at)
              (revoked_now now) t.sessions (λ _. refl),
          absent,
        )
        | inr (r, stored) ↦ ground (
          arith,
          first-update (λ r. r.id == id) (λ r. r.user_id == user && is_none r.revoked_at)
              (revoked_now now) t.sessions (λ _. refl),
          stored,
        )
      ]

  -- After all sessions of a user were revoked, no request is passed on with a context of the user,
  -- whatever access token it presents.
  pub revoked_user_shut_out :
      (user revoked_at : ℕ) (req : Request) (t : Tables) (c : Context)
      → (dispatch uuid verify dir settings req
          (opened_tables (revoke_all_for_user user revoked_at t))).1
        ≡ passed_on (some c)
      → c.user_id ≢ user
  revoked_user_shut_out user revoked_at req t c admitted same =
      revoked_row justified.ids.session_id user revoked_at t a.session a.found a.unrevoked
        (a.user ∙ sym a.grounded.user_id ∙ same)
    where
      justified : IsJustified req (revoke_all_for_user user revoked_at t) c
      justified =
          subst (Answers req (revoke_all_for_user user revoked_at t)) admitted
            (dispatch-Answers req (revoke_all_for_user user revoked_at t))

      a : IsAdmissible dir justified.ids settings req.now (revoke_all_for_user user revoked_at t) c
      a = justified.admissible
