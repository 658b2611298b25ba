-- ===== src/Examples/Logins.antt =====
-- Logins of one user who is not known yet.
use outlook_dictionary.Common.{false, List, ℕ, ◌+◌, ◌≡◌, refl, true, none, some, [], ◌∷◌, arith}
use outlook_dictionary.Sql.{first, update_where}
use outlook_dictionary.Auth.{
  DeviceSession, insert_session, session_of_hash, create_epoch, family_of_hash,
}
use outlook_dictionary.Auth.Sessions.{Settings, RefreshTokenPair, create_session}
use outlook_dictionary.Access.{Directory, membership_of}
use outlook_dictionary.Login.{LoginTables, is_consumable, consume_state}
use outlook_dictionary.Login.Callback.{
  Verification, provider_auth_error, CallbackWorld, store_credentials, finish_login, provision_user,
  login_new, login_in, login_verified, handle_callback, entra_callback,
}
use outlook_dictionary.Login.History.{LoginRequest, comes_back, starts, serve_logins}
use outlook_dictionary.Login.Once.{state_used_once}

abbrev settings : Settings
settings = record {
  session_remember_me_days = 30;
  session_absolute_timeout_days = 7;
  session_idle_timeout_hours = 24;
}

abbrev directory : Directory
directory = record {
  tenants = record { id = 3; organization_id = 6; is_active = true } ∷ [];
  memberships = [];
  identities = [];
  roles = record { id = 20; name = 30; is_system = true; permissions = [] } ∷ [];
}

-- The states 50 and 51 are open until 1000.
abbrev tables : LoginTables
tables = record {
  states =
      record {
        id = 1;
        state = 50;
        nonce = 5;
        code_verifier = 6;
        expires_at = 1000;
        consumed_at = none;
      }
      ∷ record {
        id = 2;
        state = 51;
        nonce = 5;
        code_verifier = 6;
        expires_at = 1000;
        consumed_at = none;
      }
      ∷ [];
  mappings = record { entra_tenant_id = 70; tenant_id = 3; is_active = true } ∷ [];
  users = [];
  directory = directory;
  credentials = [];
  auth = record { sessions = []; families = []; next_uuid = 100 };
}

abbrev verification : Verification
verification = record {
  entra_tenant_id = some 70;
  provider_user_id = 80;
  provider_email = none;
  access_token = 90;
  refresh_token = 91;
}

abbrev pair : RefreshTokenPair
pair = record { plaintext = 95; hash_val = 96 }

abbrev world : ℕ → CallbackWorld
world now = record {
  now = now;
  validate = λ row. some verification;
  pair = pair;
  raises_for = λ token. false;
  encrypt = λ token. token + 1;
  member_role = 30;
  made_up_email = λ user. user + 1000;
  tenant_attribute = λ user. none;
  settings = settings;
}

abbrev session : DeviceSession
session = record {
  id = 103;
  user_id = 100;
  tenant_id = 3;
  current_refresh_token_hash = 96;
  expires_at = 604900;
  last_active_at = 100;
  revoked_at = none;
  identity_id = none;
}

-- A login with state 52 starts, and a callback with state 51 fails, since the identity is known.
abbrev meanwhile : List LoginRequest
meanwhile =
    starts
      (record { now = 150; state = 52; nonce = 5; code_verifier = 6; authorization_url = some 99 })
    ∷ comes_back (world 200) 51
    ∷ []

state_used_once_example :
    entra_callback (world 300) 50 (serve_logins meanwhile (entra_callback (world 100) 50 tables).1)
    ≡ (provider_auth_error, serve_logins meanwhile (entra_callback (world 100) 50 tables).1)
unfolding entra_callback handle_callback login_verified login_in login_new provision_user
    finish_login membership_of store_credentials create_session consume_state is_consumable first
    update_where insert_session session_of_hash create_epoch family_of_hash
state_used_once_example =
    state_used_once (world 100) (world 300) 50 tables session pair meanwhile refl (omega arith)
