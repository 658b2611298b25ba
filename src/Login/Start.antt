-- ===== src/Login/Start.antt =====
-- `ProviderAuthService.initiate_login` (apps/api/app/services/identity_provider.py) and
-- `OAuthStateRepository.create_state` (apps/api/app/repositories/identity_provider.py).
use outlook_dictionary.Common.{
  ℕ, ◌+◌, Option, none, some, List, [], ◌∷◌, ◌++◌, if◌then◌else◌, ◌==◌, is_some,
}
use outlook_dictionary.Sql.{first}
use outlook_dictionary.Login.{OAuthState, LoginTables}

-- `create_state`; `none` is the error of the unique state.
unfoldable pub create_state :
    (id state nonce code_verifier expires_at : ℕ) → List OAuthState → Option (List OAuthState)
create_state id state nonce code_verifier expires_at rows =
    if is_some (first (λ s. s.state == state) rows)
    then none
    else some (
        rows
        ++ record {
          id = id;
          state = state;
          nonce = nonce;
          code_verifier = code_verifier;
          expires_at = expires_at;
          consumed_at = none;
        }
          ∷ [])

-- What surrounds the start of a login: the clock, the random texts, and what
-- `get_authorization_url` of the provider answers, an exception being `none`.
pub record Start : Type 0 where
  pub now : ℕ
  pub state : ℕ
  pub nonce : ℕ
  pub code_verifier : ℕ
  pub authorization_url : Option ℕ

-- The state of a login is open for ten minutes; it is committed before the address is made.
unfoldable pub initiate_login : Start → LoginTables → Option ℕ × LoginTables
unfolding create_state
initiate_login start t =
    elim (create_state t.auth.next_uuid start.state start.nonce start.code_verifier
      (start.now + 600) t.states) [
        | none ↦ (none, t)
        | some rows ↦ (
          start.authorization_url,
          record t { states = rows; auth = record t.auth { next_uuid = t.auth.next_uuid + 1 } },
        )
      ]
