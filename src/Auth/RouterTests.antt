-- ===== src/Auth/RouterTests.antt =====
-- Two administrators demote themselves, in turn and at once.
use deltix_server.Auth.Router.{revoke_global_admin}
use deltix_server.Auth.Service.Accounts.{set_global_admin}
use deltix_server.Auth.Users.{update_user}
use deltix_server.Auth.Users
use deltix_server.Table.{update}
use deltix_server.Common.{◌≡◌, refl, true, false, String, [], ◌∷◌, none, some, string_eq}
use deltix_server.Table.{find}
use deltix_server.Auth.Users.{UserRecord, get_by_username}
use deltix_server.Auth.Service.{AuthState, Platform, AuthServiceConfig}
use deltix_server.Auth.Service.Accounts.{is_global_admin}
use deltix_server.Auth.Router.{Meanwhile, delete_global_admin, serve}
use deltix_server.Auth.Router.Laws.{HasAdmin, IsGentle, Visit, serve_all, serve_all-HasAdmin}

abbrev account : String → UserRecord
account name = record {
  username = name;
  password_hash = "x";
  created_at = 1;
  created_by = "setup";
  active = true;
  last_login_at = none;
  is_global_admin = true;
  can_create_repos = some true;
}

abbrev accounts : AuthState
accounts = record {
  windows = λ key. none;
  sessions = [];
  db = record { users = account "ana" ∷ account "bob" ∷ []; repo_roles = [] };
}

abbrev platform : Platform
platform = record {
  hash_password = λ salt password. password;
  verify_password = λ password hash. true;
  sign_token = λ name time ttl. name;
}

abbrev config : AuthServiceConfig
config = record {
  access_token_ttl_seconds = 60;
  session_ttl_seconds = 600;
  limits = record { max_attempts = 3; window_ms = 1000 };
  bootstrap_admin_configured = false;
  legacy_users = [];
  foreign_keys = true;
}

abbrev nothing_else : Meanwhile
nothing_else = record { after_guard = λ s. s; after_count = λ s. s }

abbrev demotes_itself : String → Visit
demotes_itself name = record {
  token = some name;
  request = delete_global_admin name;
  salt = "s";
  now = 9;
  meanwhile = nothing_else;
}

demotes-IsGentle : (name : String) → IsGentle (demotes_itself name)
demotes-IsGentle name = ((λ other e. cc e), (λ s. (λ u. u, λ k h. h)), (λ s. (λ u. u, λ k h. h)))

serve_all-HasAdmin_example :
    HasAdmin
      (serve_all platform config some (demotes_itself "ana" ∷ demotes_itself "bob" ∷ []) accounts)
unfolding find is_global_admin get_by_username
serve_all-HasAdmin_example =
    serve_all-HasAdmin platform config some (demotes_itself "ana" ∷ demotes_itself "bob" ∷ [])
      accounts (demotes-IsGentle "ana", (demotes-IsGentle "bob", tt))
      ((refl, (refl, tt)), ("ana", refl))

-- Bob demotes himself between Ana's count and her update: nobody is left.
abbrev crossed : AuthState
crossed =
    (serve platform config "s" 9 some
      (record nothing_else {
        after_count = λ s.
            (serve platform config "s" 9 some nothing_else (some "bob") (delete_global_admin "bob")
              s).1;
      })
      (some "ana") (delete_global_admin "ana") accounts).1

nobody_left : (is_global_admin "ana" crossed ≡ false) × (is_global_admin "bob" crossed ≡ false)
unfolding is_global_admin serve find get_by_username revoke_global_admin set_global_admin
    Users.set_global_admin update_user update
nobody_left = (refl, refl)
