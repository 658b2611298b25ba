-- ===== src/Login/Spent.antt =====
-- What requests do to a login state that is used.
use mathlib.Core.Path.{subst}
use outlook_dictionary.Common.{
  false, ◌==◌, is_some, ◌++◌, ◌+◌, choose_by, ℕ, ◌≡◌, refl, sym, Option, none, some, List, [], ◌∷◌,
}
use outlook_dictionary.Sql.{first}
use outlook_dictionary.Login.{OAuthState, LoginTables, consume_state}
use outlook_dictionary.Login.Callback.{
  Verification, logged_in, provider_auth_error, unexpected_error, CallbackWorld, Step,
  login_verified, handle_callback, end_callback, entra_callback,
}
use outlook_dictionary.Login.Start.{Start, create_state, initiate_login}
use outlook_dictionary.Login.History.{LoginRequest, comes_back, starts, serve_login, serve_logins}
use outlook_dictionary.Login.States.{
  IsUsed, kept-IsUsed, IsKnown, kept-IsKnown, appended-IsUsed, appended-IsKnown, fresh-differs,
}
use outlook_dictionary.Login.Kept.{Keeps, login_verified-Keeps}

handle_callback-states :
    (world : CallbackWorld) (state : ℕ) (t : LoginTables)
    → (handle_callback world state t).1.states ≡ (consume_state state world.now t.states).0
unfolding handle_callback
handle_callback-states world state t = at_row (consume_state state world.now t.states).1
  where
    t' : LoginTables
    t' = record t { states = (consume_state state world.now t.states).0 }

    at_answer :
        (o : Option Verification)
        → Keeps world t'.states (elim o as (λ _. Step) [
          | none ↦ (provider_auth_error, t')
          | some v ↦ login_verified world v t'
        ])
    at_answer none = refl
    at_answer (some v) = login_verified-Keeps world v t'

    at_row :
        (o : Option OAuthState)
        → Keeps world t'.states (elim o as (λ _. Step) [
          | none ↦ (provider_auth_error, t')
          | some row ↦ elim (world.validate row) [
            | none ↦ (provider_auth_error, t')
            | some v ↦ login_verified world v t'
          ]
        ])
    at_row none = refl
    at_row (some row) = at_answer (world.validate row)

-- What an answer of the endpoint tells of the states: a login has consumed its own, and a failure
-- leaves all.
abbrev pub Consumes : CallbackWorld → ℕ → LoginTables → Step → Type 0
Consumes world state t (logged_in session pair, t') =
    t'.states ≡ (consume_state state world.now t.states).0
Consumes world state t (provider_auth_error, t') = t' ≡ t
Consumes world state t (unexpected_error, t') = t' ≡ t

pub entra_callback-Consumes :
    (world : CallbackWorld) (state : ℕ) (t : LoginTables)
    → Consumes world state t (entra_callback world state t)
unfolding entra_callback
entra_callback-Consumes world state t =
    go (handle_callback world state t) (handle_callback-states world state t)
  where
    go :
        (r : Step)
        → r.1.states ≡ (consume_state state world.now t.states).0
        → Consumes world state t (end_callback world t r)
    go (logged_in session pair, t') h = h
    go (provider_auth_error, t') h = refl
    go (unexpected_error, t') h = refl

-- The state has a row, and no row of it can be consumed from the instant on.
abbrev pub IsSpent : (state since : ℕ) → List OAuthState → Type 0
IsSpent state since rows = IsUsed state since rows × IsKnown state rows

kept-IsSpent :
    (state since other when : ℕ) (rows : List OAuthState)
    → IsSpent state since rows
    → IsSpent state since (consume_state other when rows).0
kept-IsSpent state since other when rows (used, known) = (
  λ now le. kept-IsUsed state now other when rows (used now le),
  kept-IsKnown state other when rows known,
)

callback-IsSpent :
    (world : CallbackWorld) (state since other : ℕ) (t : LoginTables)
    → IsSpent state since t.states
    → IsSpent state since (entra_callback world other t).1.states
callback-IsSpent world state since other t h =
    go (entra_callback world other t) (entra_callback-Consumes world other t)
  where
    go : (r : Step) → Consumes world other t r → IsSpent state since r.1.states
    go (logged_in session pair, t') e =
        subst (IsSpent state since) (sym e) (kept-IsSpent state since other world.now t.states h)
    go (provider_auth_error, t') e = subst (λ u. IsSpent state since u.states) (sym e) h
    go (unexpected_error, t') e = subst (λ u. IsSpent state since u.states) (sym e) h

appended-IsSpent :
    (state since : ℕ) (rows : List OAuthState) (s : OAuthState)
    → (s.state == state) ≡ false
    → IsSpent state since rows
    → IsSpent state since (rows ++ s ∷ [])
appended-IsSpent state since rows s other (used, known) = (
  λ now le. appended-IsUsed state now rows s other (used now le),
  appended-IsKnown state rows s known,
)

-- What a row is appended to is spent; where none is, there is nothing to show.
abbrev SpentSome : (state since : ℕ) → Option (List OAuthState) → Type 0
SpentSome state since none = Unit
SpentSome state since (some rows) = IsSpent state since rows

-- A state that has a row is not created again.
created-IsSpent :
    (state since id fresh nonce code_verifier expires_at : ℕ) (rows : List OAuthState)
    → IsSpent state since rows
    → SpentSome state since (create_state id fresh nonce code_verifier expires_at rows)
unfolding create_state
created-IsSpent state since id fresh nonce code_verifier expires_at rows h =
    choose_by (SpentSome state since) (is_some (first (λ s. s.state == fresh) rows)) _ _ (λ _. tt)
      (λ absent. appended-IsSpent state since rows _ (fresh-differs state fresh rows h.1 absent) h)

start-IsSpent :
    (start : Start) (state since : ℕ) (t : LoginTables)
    → IsSpent state since t.states
    → IsSpent state since (initiate_login start t).1.states
unfolding initiate_login
start-IsSpent start state since t h =
    go
      (create_state t.auth.next_uuid start.state start.nonce start.code_verifier (start.now + 600)
        t.states)
      (created-IsSpent state since t.auth.next_uuid start.state start.nonce start.code_verifier
        (start.now + 600) t.states h)
  where
    go :
        (o : Option (List OAuthState))
        → SpentSome state since o
        → IsSpent state since
            (elim o as (λ _. Option ℕ × LoginTables) [
              | none ↦ (none, t)
              | some rows ↦ (
                start.authorization_url,
                record t {
                  states = rows;
                  auth = record t.auth { next_uuid = t.auth.next_uuid + 1 };
                },
              )
            ]).1.states
    go none _ = h
    go (some rows) spent = spent

pub served-IsSpent :
    (requests : List LoginRequest) (state since : ℕ) (t : LoginTables)
    → IsSpent state since t.states
    → IsSpent state since (serve_logins requests t).states
unfolding serve_logins serve_login
served-IsSpent [] state since t h = h
served-IsSpent (comes_back world other ∷ requests) state since t h =
    served-IsSpent requests state since (entra_callback world other t).1
      (callback-IsSpent world state since other t h)
served-IsSpent (starts start ∷ requests) state since t h =
    served-IsSpent requests state since (initiate_login start t).1
      (start-IsSpent start state since t h)
