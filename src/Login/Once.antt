-- ===== src/Login/Once.antt =====
-- A login state opens one session at most.
use mathlib.Core.Path.{subst}
use outlook_dictionary.Common.{
  Option-cases, inl, inr, true, is_some, ℕ, ◌≤◌, ◌≡◌, refl, sym, ap, none, List,
}
use outlook_dictionary.Sql.{first}
use outlook_dictionary.Auth.{DeviceSession}
use outlook_dictionary.Auth.Sessions.{RefreshTokenPair}
use outlook_dictionary.Login.{LoginTables, is_consumable, consume_state}
use outlook_dictionary.Login.Callback.{
  CallbackResult, logged_in, provider_auth_error, unexpected_error, CallbackWorld, Step,
  handle_callback, entra_callback,
}
use outlook_dictionary.Login.History.{LoginRequest, serve_logins}
use outlook_dictionary.Login.States.{consumed-IsUsed, consumable-IsKnown}
use outlook_dictionary.Login.Spent.{Consumes, entra_callback-Consumes, IsSpent, served-IsSpent}

-- A callback with a used state fails and changes nothing.
used_refused :
    (world : CallbackWorld) (state : ℕ) (t : LoginTables)
    → first (is_consumable state world.now) t.states ≡ none
    → entra_callback world state t ≡ (provider_auth_error, t)
unfolding entra_callback handle_callback consume_state
used_refused world state t h = rw (h, handle_callback) refl

absurd_answer :
    {B : Type 0} {session : DeviceSession} {pair : RefreshTokenPair} {r : CallbackResult}
    → r ≡ provider_auth_error
    → r ≡ logged_in session pair
    → B
absurd_answer h k = cc

-- A login had a row to consume.
logged_in-consumed :
    (world : CallbackWorld) (state : ℕ) (t : LoginTables) (session : DeviceSession)
    (pair : RefreshTokenPair)
    → (entra_callback world state t).0 ≡ logged_in session pair
    → is_some (first (is_consumable state world.now) t.states) ≡ true
logged_in-consumed world state t session pair done =
    elim (Option-cases (first (is_consumable state world.now) t.states)) [
      | inl h ↦ absurd_answer (ap (λ r. r.0) (used_refused world state t h)) done
      | inr (r, h) ↦ rw (h) refl
    ]

login-IsSpent :
    (world : CallbackWorld) (state : ℕ) (t : LoginTables) (session : DeviceSession)
    (pair : RefreshTokenPair)
    → (entra_callback world state t).0 ≡ logged_in session pair
    → IsSpent state world.now (entra_callback world state t).1.states
login-IsSpent world state t session pair done =
    go (entra_callback world state t) (entra_callback-Consumes world state t) done
  where
    go :
        (r : Step)
        → Consumes world state t r
        → r.0 ≡ logged_in session pair
        → IsSpent state world.now r.1.states
    go (logged_in s p, t') e d = subst (IsSpent state world.now) (sym e) (
      consumed-IsUsed state world.now t.states,
      consumable-IsKnown state world.now t.states
          (logged_in-consumed world state t session pair done),
    )
    go (provider_auth_error, t') e d = cc
    go (unexpected_error, t') e d = cc

-- Once a callback has logged in with a state, every later callback with this state fails and
-- changes nothing, whatever callbacks and starts of logins come in between.
pub state_used_once :
    (world later : CallbackWorld) (state : ℕ) (t : LoginTables) (session : DeviceSession)
    (pair : RefreshTokenPair) (requests : List LoginRequest)
    → (entra_callback world state t).0 ≡ logged_in session pair
    → world.now ≤ later.now
    → (let after = serve_logins requests (entra_callback world state t).1 in
        entra_callback later state after ≡ (provider_auth_error, after))
state_used_once world later state t session pair requests done le =
    used_refused later state (serve_logins requests (entra_callback world state t).1) (
      (served-IsSpent requests state world.now (entra_callback world state t).1
          (login-IsSpent world state t session pair done)).0
        later.now le)
