-- ===== src/Auth/Tests.antt =====
-- Runs of the auth context on concrete accounts and sessions.
use Sessions.{count_active_sessions_for_user, create}
use deltix_server.Common.{
  ℕ, ◌+◌, ◌-◌, ◌*◌, ◌≤◌, ◌≡◌, ◌≢◌, ◌⊎◌, refl, true, false, ◌&&◌, String, List, [], ◌∷◌, none, some,
  string_eq, nat_eq, ◌==◌, if◌then◌else◌, ok, err, arith,
}
use deltix_server.Auth.Users.{
  delete_user, upsert_repo_role, set_active, update_user, UserRecord, UserStore, get_by_username,
  get_repo_role,
}
use deltix_server.Table.Keys.{insert, Unique}
use deltix_server.Auth.Limiter.{assert_allowed, Windows, Limits}
use deltix_server.Auth.Service.{
  find_user_for_login, verify_credentials, AuthState, setup_already_configured, Platform,
  AuthServiceConfig, LoginResult, LoginClock, login,
}
use deltix_server.Table.{affected, find}
use deltix_server.Auth.Roles.{writer, admin}
use deltix_server.Auth.Limiter.Bounds.{passed, passed-open}
use deltix_server.Auth.Sessions.{
  Session, SessionStore, session_not_found, session_expired, token_of, get, revoke, create_session,
  username_for,
}
use deltix_server.Auth.Sessions.Window.{IsOpen}
use deltix_server.Auth.Users.Laws.{IsValid}
use deltix_server.Auth.Service.Login.{CheckedAgainst, login_sound}
use deltix_server.Auth.Service.Accounts.{
  build_user_record, user_exists, grant_repo_role, remove_user, setup_first_admin, is_global_admin,
  deactivate_user, assignment,
}
use deltix_server.Auth.Service.Grants.{remove_user_sound}
use deltix_server.Auth.Service.Setup.{setup_first_admin-once}
use deltix_server.Auth.Sessions

-- Three logins within a window of a second.
abbrev limits : Limits
limits = record { max_attempts = 3; window_ms = 1000 }

abbrev counting : Windows
counting k = if k == "ana" then some (record { count = 2; window_started_at = 100 }) else none

abbrev attempts : List (String × ℕ × ℕ)
attempts = ("ana", 200, 200) ∷ ("bob", 210, 211) ∷ ("ana", 220, 220) ∷ []

passed-open_example : passed limits "ana" attempts counting ≤ 3 - 2
passed-open_example =
    passed-open limits "ana" attempts counting (record { count = 2; window_started_at = 100 }) refl
      ((omega arith, omega arith), ((omega arith, omega arith), ((omega arith, omega arith), tt)))

abbrev bob_token : String
bob_token = "k2"

abbrev new_token : String
new_token = "k3"

abbrev session : Session
session = record { refresh_token = "k1"; username = "ana"; created_at = 0; expires_at = 5000 }

abbrev sessions : SessionStore
sessions =
    session
    ∷ record { refresh_token = "k2"; username = "bob"; created_at = 0; expires_at = 900 }
    ∷ []

sessions-Unique : Unique token_of sessions
unfolding find
sessions-Unique = (refl, (refl, tt))

stored : get "k1" sessions ≡ some session
unfolding get find
stored = refl

open_session : (now : ℕ) → now ≤ 5000 → IsOpen now "k1" "ana" sessions
open_session now h = record { row = session; stored = stored; owner = refl; in_time = h }

closed : (username : String) → ¬ IsOpen 1000 "k2" username sessions
unfolding get find
closed username o = ground (arith, o.stored, o.in_time)

created : (create_session 60 1000 1000 "k3" "ana" sessions).0 ≡ ok "k3"
unfolding create_session create insert find
created = refl

-- A hash that shows the password, and a token that shows its user.
abbrev platform : Platform
platform = record {
  hash_password = λ salt p. p;
  verify_password = λ p h. p == h;
  sign_token = λ u t ttl. u;
}

abbrev config : AuthServiceConfig
config = record {
  access_token_ttl_seconds = 900;
  session_ttl_seconds = 60;
  limits = limits;
  bootstrap_admin_configured = false;
  legacy_users = ("leo", "old") ∷ [];
  foreign_keys = false;
}

abbrev ana : UserRecord
ana = record {
  username = "ana";
  password_hash = "pw";
  created_at = 0;
  created_by = "setup-wizard";
  active = true;
  last_login_at = none;
  is_global_admin = true;
  can_create_repos = some true;
}

abbrev store : UserStore
store = record { users = ana ∷ []; repo_roles = assignment "ana" "r" writer 0 "ana" ∷ [] }

store-IsValid : IsValid store
unfolding find
store-IsValid = record { users_unique = (refl, tt); grants_unique = (refl, tt) }

abbrev state : AuthState
state = record { windows = λ k. none; sessions = sessions; db = store }

abbrev clock : LoginClock
clock = record {
  tested_at = 1000;
  counted_at = 1000;
  seen_at = 1001;
  token_seconds = 1;
  session_at = 1002;
  stamp = 1003;
}

abbrev welcome : LoginResult
welcome = record {
  username = "ana";
  access_token = "ana";
  refresh_token = "k3";
  expires_in_seconds = 900;
  is_global_admin = true;
  can_create_repos = some true;
}

logged_in : (login platform config clock "k3" "ana" "pw" state).0 ≡ ok welcome
unfolding login assert_allowed find_user_for_login get_by_username find verify_credentials
    create_session create insert
logged_in = refl

login_sound_example :
    CheckedAgainst platform config clock "k3" "ana" "pw" state welcome.is_global_admin
    × (welcome.username ≡ "ana")
    × ((now : ℕ)
        → now ≤ 1002 + 60 * 1000
        → Sessions.username_for now "k3"
            (login platform config clock "k3" "ana" "pw" state).1.sessions
          ≡ ok "ana")
login_sound_example = login_sound platform config clock "k3" "ana" "pw" state welcome logged_in

unknown : get_by_username "eve" store ≡ none
unfolding get_by_username find
unknown = refl

unconfigured : find (λ (l : String × String). l.0 == "eve") config.legacy_users ≡ none
unfolding find
unconfigured = refl

deactivated : (deactivate_user "ana" state).0 ≡ ok tt
unfolding deactivate_user set_active update_user affected
deactivated = refl

granted :
    (grant_repo_role config 2000 "leo" "r" "admin" "ana" state).0
    ≡ ok (assignment "leo" "r" admin 2000 "ana")
unfolding grant_repo_role user_exists get_by_username find upsert_repo_role insert
granted = refl

abbrev leo : String
leo = "leo"

abbrev repo : String
repo = "r"

removed : (remove_user config 9000 "ana" state).0 ≡ ok tt
unfolding remove_user count_active_sessions_for_user affected delete_user
removed = refl

remove_user_sound_example :
    let s = (remove_user config 9000 "ana" state).1 in
    ((token : String) → ¬ IsOpen 9000 token "ana" sessions)
    × ((k : String)
        → get_by_username k s.db ≡ (if k == "ana" then none else get_by_username k store))
    × ((name id : String)
        → get_repo_role name id s.db
          ≡ (if false && name == "ana" then none else get_repo_role name id store))
remove_user_sound_example = remove_user_sound config 9000 state "ana" store-IsValid removed

abbrev blank : AuthState
blank = record { windows = λ k. none; sessions = []; db = record { users = []; repo_roles = [] } }

setup_first_admin-once_example :
    let (r, s) = setup_first_admin platform config "salt" 5 "ana" "pw" blank in
    ((false ≡ false)
      × (blank.db.users ≡ [])
      × (r ≡ ok (build_user_record platform "salt" 5 "ana" "pw" "setup-wizard" true true))
      × (is_global_admin "ana" s ≡ true)
      × ((salt : String) (later : ℕ) (name pass : String)
          → setup_first_admin platform config salt later name pass s
            ≡ (err setup_already_configured, s)))
    ⊎ (((false ≡ true) ⊎ (blank.db.users ≢ [])) × (r ≡ err setup_already_configured) × (s ≡ blank))
setup_first_admin-once_example = setup_first_admin-once platform config "salt" 5 "ana" "pw" blank
