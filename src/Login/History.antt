-- ===== src/Login/History.antt =====
-- The requests of many browsers, one after another.
use outlook_dictionary.Common.{ℕ, List, [], ◌∷◌}
use outlook_dictionary.Login.{LoginTables}
use outlook_dictionary.Login.Start.{Start, initiate_login}
use outlook_dictionary.Login.Callback.{CallbackWorld, entra_callback}

-- A callback with its state and its surroundings, or the start of a login.
pub data LoginRequest : Type 0 where
  comes_back : CallbackWorld → (state : ℕ) → LoginRequest
  starts : Start → LoginRequest

unfoldable pub serve_login : LoginRequest → LoginTables → LoginTables
unfolding entra_callback initiate_login
serve_login (comes_back world state) t = (entra_callback world state t).1
serve_login (starts start) t = (initiate_login start t).1

unfoldable pub serve_logins : List LoginRequest → LoginTables → LoginTables
unfolding serve_login
serve_logins [] t = t
serve_logins (r ∷ requests) t = serve_logins requests (serve_login r t)
