-- ===== src/Versioning/RouterTests.antt =====
-- Requests to the versioning router.
use deltix_server.Auth.Service.Accounts.{grant_repo_admin_to_creator, user_exists}
use deltix_server.Table.{find}
use deltix_server.Versioning.Repos.{create, provision}
use deltix_server.Versioning.Names.{codes, valid_repo_id}
use deltix_server.Table.Keys.{insert}
use deltix_server.Common.{
  ℕ, ◌≡◌, ◌⊎◌, refl, true, false, String, [], ◌∷◌, none, some, string_eq, ok, err,
}
use deltix_server.Auth.Service.{AuthState}
use deltix_server.Auth.Users.{UserRecord, get_by_username}
use deltix_server.Auth.Service.Accounts.{can_user_create_repos}
use deltix_server.Versioning.Types.{RepoRecord}
use deltix_server.Versioning.Repos.{get}
use deltix_server.Versioning.Router.{require_username}
use deltix_server.Versioning.Router.Serve.{
  Services, Server, failed, delete_branch, serve, post_repos,
}
use deltix_server.Versioning.Router.Guarded.{Authorised, serve_guarded}
use deltix_server.Versioning.Router.Creation.{Granted, post_repos_outcome}

-- Folders whose commands do nothing.
abbrev services : Services (Unit {0})
services = record {
  verify_token = λ token. some token;
  auth = record {
    access_token_ttl_seconds = 60;
    session_ttl_seconds = 600;
    limits = record { max_attempts = 3; window_ms = 1000 };
    bootstrap_admin_configured = false;
    legacy_users = [];
    foreign_keys = true;
  };
  provisioning = record {
    run_dolt_init = λ path. none;
    join = λ root name. name;
    dolt_repos_root_path = "/dolt";
  };
  branches = record {
    list_branches = λ p w. (ok [], w);
    current_branch = λ p w. (ok "main", w);
    create_branch = λ p n w. (ok tt, w);
    checkout_branch = λ p n w. (ok tt, w);
    delete_branch = λ p n w. (ok tt, w);
  };
  merges = record {
    merge = λ path source target w. (err "no merge", w);
    abort = λ path w. (ok tt, w);
    read_conflicts = λ path w. (ok [], w);
    latest_commit_hash = λ path w. (ok "h", w);
    current_branch = λ path w. (ok "main", w);
  };
  imports = record { import_commit = λ path branch commit w. (ok "h", w); branch_head = none };
  read_edges = λ path. ok [];
}

abbrev ana : UserRecord
ana = record {
  username = "ana";
  password_hash = "x";
  created_at = 1;
  created_by = "setup";
  active = true;
  last_login_at = none;
  is_global_admin = false;
  can_create_repos = some true;
}

abbrev server : Server (Unit {0})
server = record {
  accounts = record {
    windows = λ key. none;
    sessions = [];
    db = record { users = ana ∷ []; repo_roles = [] };
  };
  repos = record { repos = []; preferences = [] };
  world = tt;
}

serve_guarded_example :
    Authorised services.verify_token
      (some "ana")
      "shop"
      (delete_branch (some "dev"))
      server.accounts
    ⊎ ((status : ℕ) × (serve services 5 (some "ana") "shop" (delete_branch (some "dev")) server
          ≡ (failed status, server)))
serve_guarded_example =
    serve_guarded services 5 (some "ana") "shop" (delete_branch (some "dev")) server

abbrev shop : RepoRecord
shop = record { repo_id = "shop"; dolt_path = "shop"; created_at = 5; created_by = "ana" }

post_repos_outcome_example :
    (username : String) × (require_username services.verify_token (some "ana") ≡ some username)
    × (can_user_create_repos username server.accounts ≡ true)
    × (shop.created_by ≡ username)
    × Granted username "shop" shop server.accounts
        (post_repos services (λ s. s) 5 6 (some "ana") (some "shop") server)
unfolding get find post_repos require_username can_user_create_repos get_by_username provision
    valid_repo_id codes create insert
post_repos_outcome_example =
    post_repos_outcome services 6 (λ s. s) 5 (some "ana") "shop" server {r = shop} refl refl

-- Ana's account goes before the grant: the repository stays, without an administrator.
abbrev all_deleted : AuthState → AuthState
all_deleted s = record s { db = record s.db { users = [] } }

orphaned :
    let (reply, s') = post_repos services all_deleted 5 6 (some "ana") (some "shop") server in
    (reply ≡ failed 500)
    × (get "shop" s'.repos ≡ some shop)
    × (s'.accounts ≡ all_deleted server.accounts)
unfolding post_repos require_username can_user_create_repos get_by_username find provision
    valid_repo_id codes get create insert grant_repo_admin_to_creator user_exists
orphaned = (refl, refl, refl)
