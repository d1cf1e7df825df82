-- ===== src/Addons/TrustTests.antt =====
-- An administrator trusts a second author.
use deltix_server.Auth.Users.{get_by_username}
use deltix_server.Addons.Trust.{
  is_valid_raw_ed25519_public_key_base64, valid_length, valid_trust_request,
}
use deltix_server.Versioning.Names.{codes}
use deltix_server.Common.{ℕ, ◌≡◌, refl, true, List, [], ◌∷◌, none, some, string_eq}
use deltix_server.Table.{find}
use deltix_server.Table.Keys.{Unique}
use deltix_server.Auth.Service.{AuthState}
use deltix_server.Auth.Service.Accounts.{is_global_admin}
use deltix_server.Auth.Router.{authenticate_bearer_token, named}
use deltix_server.Addons.Trust.{
  AddonTrustRecord, TrustStore, key_of, Base64, TrustCall, post_trust, serve,
}
use deltix_server.Addons.Trust.Laws.{Served, serve-Served}

abbrev zeros : List ℕ
zeros =
    0 ∷ 0 ∷ 0 ∷ 0 ∷ 0 ∷ 0 ∷ 0 ∷ 0 ∷ 0 ∷ 0 ∷ 0 ∷ 0 ∷ 0 ∷ 0 ∷ 0 ∷ 0 ∷ 0 ∷ 0 ∷ 0 ∷ 0 ∷ 0 ∷ 0 ∷ 0 ∷ 0
    ∷ 0 ∷ 0 ∷ 0 ∷ 0 ∷ 0 ∷ 0 ∷ 0 ∷ 0 ∷ []

abbrev base64 : Base64
base64 = record { decode = λ s. zeros; encode = λ bytes. "AAA=" }

abbrev admins : AuthState
admins = record {
  windows = λ key. none;
  sessions = [];
  db = record {
    users =
        record {
          username = "ana";
          password_hash = "x";
          created_at = 1;
          created_by = "setup";
          active = true;
          last_login_at = none;
          is_global_admin = true;
          can_create_repos = some true;
        }
        ∷ [];
    repo_roles = [];
  };
}

abbrev charts : AddonTrustRecord
charts = record {
  addon_name = "charts";
  author_public_key = "AAA=";
  trusted_at = 1;
  trusted_by = "ana";
}

abbrev trusted : TrustStore
trusted = charts ∷ []

abbrev trusts : TrustCall
trusts = post_trust (some (record { addon_name = "maps-2"; author_public_key = "AAA=" }))

serve-Served_example :
    let reply = serve base64 9 some (some "ana") admins trusts trusted in
    Unique key_of reply.1
    × Served base64 9
        (named (authenticate_bearer_token some (some "ana")))
        admins
        trusts
        trusted
        reply
unfolding find
serve-Served_example = serve-Served base64 9 some (some "ana") admins trusts trusted (refl, tt)

trusts_answered : (serve base64 9 some (some "ana") admins trusts trusted).0 ≡ 200
unfolding serve is_global_admin get_by_username find valid_trust_request valid_length codes
    is_valid_raw_ed25519_public_key_base64
trusts_answered = refl
