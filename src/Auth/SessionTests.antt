-- ===== src/Auth/SessionTests.antt =====
-- A sandboxed page, whose origin is `null` and no URL, sends the user's cookie along.
use deltix_server.Common.{◌≡◌, refl, true, false, String, [], ◌∷◌, Option, none, some, string_eq}
use deltix_server.Auth.Service.{AuthState, Platform, AuthServiceConfig}
use deltix_server.Auth.SessionRouter.{
  HttpContext, reply, object, not_json, RefreshClock, post_refresh, post_keep_alive, post_logout,
}
use deltix_server.Auth.SessionRouter.Origin.{cross_site_refused}
use deltix_server.Common.{◌∷◌}

abbrev platform : Platform
platform = record {
  hash_password = λ salt password. password;
  verify_password = λ password hash. true;
  sign_token = λ name time ttl. name;
}

abbrev config : AuthServiceConfig
config = record {
  access_token_ttl_seconds = 60;
  session_ttl_seconds = 600;
  limits = record { max_attempts = 3; window_ms = 1000 };
  bootstrap_admin_configured = false;
  legacy_users = [];
  foreign_keys = true;
}

abbrev one_session : AuthState
one_session = record {
  windows = λ key. none;
  sessions =
      record { refresh_token = "r1"; username = "ana"; created_at = 1; expires_at = 900000 } ∷ [];
  db = record { users = []; repo_roles = [] };
}

abbrev from_elsewhere : HttpContext
from_elsewhere = record {
  forwarded_proto = none;
  origin = some "null";
  host = some "deltix.local";
  cookie = some "r1";
  protocol = "http:";
}

abbrev host_of : String → Option String
host_of origin = none

abbrev clock : RefreshClock
clock = record { now = 5; tested = 5; later = 6; token_seconds = 0 }

cross_site_refused_example :
    (post_refresh platform config true host_of clock from_elsewhere (object none) one_session
      ≡ (reply 403, one_session))
    × (post_refresh platform config true host_of clock from_elsewhere not_json one_session
        ≡ (reply 403, one_session))
    × (post_keep_alive platform config true host_of 5 6 from_elsewhere (object none) one_session
        ≡ (reply 403, one_session))
    × (post_logout platform config true host_of from_elsewhere (object none) one_session
        ≡ (reply 403, one_session))
cross_site_refused_example =
    cross_site_refused platform config true host_of from_elsewhere "r1" clock 5 6 one_session
      ("null", refl, (λ e. cc e), (λ host e f. cc f)) refl (λ e. cc e)
