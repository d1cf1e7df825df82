-- ===== src/Versioning/Repos.antt =====
-- contexts/versioning/libsql-repo-store.ts, the tables `repos` and `repo_sync_preferences`, and
-- repo-provisioning.service.ts. `dolt init` and the joining of paths are parameters.
pub mod Laws
use deltix_server.Common.{
  ℕ, Bool, true, false, String, List, [], Option, none, some, if◌then◌else◌, ◌==◌, string_eq,
  Result, ok, err, guard, ◌>>◌ as ◌&>>◌,
}
use deltix_server.Table.{find, update}
use deltix_server.Table.Keys.{lookup, insert}
use deltix_server.Versioning.Names.{valid_repo_id}
use deltix_server.Versioning.Types.{
  RepoRecord, RepoSyncPreference, VersioningError, invalid_repo_id, repo_already_provisioned,
  repo_not_found, repo_provisioning_failed, constraint_violation, Action, pure, raise, lift, ◌>>=◌,
  ◌>>◌, raise_unless,
}
use mathlib.Core.Option

pub record RepoStore : Type 0 where
  pub repos : List RepoRecord
  pub preferences : List RepoSyncPreference

abbrev pub repo_key : RepoRecord → String
repo_key r = r.repo_id

abbrev pub preference_key : RepoSyncPreference → String
preference_key r = r.repo_id

-- `INSERT INTO repos`; the primary key refuses a second row of a repository.
unfoldable pub create : RepoRecord → Action RepoStore (Unit {0})
create r s = elim (insert repo_key r s.repos) [
  | none ↦ (err constraint_violation, s)
  | some rows ↦ (ok tt, record s { repos = rows })
]

unfoldable pub get : String → RepoStore → Option RepoRecord
get repo_id s = lookup repo_key repo_id s.repos

unfoldable pub get_sync_preference : String → RepoStore → Option RepoSyncPreference
get_sync_preference repo_id s = lookup preference_key repo_id s.preferences

-- `DO UPDATE SET mode, requested_tables_json, updated_at`: `created_at` stays.
abbrev pub merge_preference : RepoSyncPreference → RepoSyncPreference → RepoSyncPreference
merge_preference new old = record old {
  mode = new.mode;
  requested_tables = new.requested_tables;
  updated_at = new.updated_at;
}

unfoldable pub upsert_sync_preference : RepoSyncPreference → RepoStore → RepoStore
upsert_sync_preference p s = elim (insert preference_key p s.preferences) [
  | none ↦ record s {
    preferences = update (λ r. r.repo_id == p.repo_id) (merge_preference p) s.preferences;
  }
  | some rows ↦ record s { preferences = rows }
]

-- What the service is made with: `dolt init` answers an error's message, or none.
pub record Provisioning : Type 0 where
  pub run_dolt_init : String → Option String
  pub join : String → String → String
  pub dolt_repos_root_path : String

abbrev pub init_reply : Option String → Result VersioningError (Unit {0})
init_reply none = ok tt
init_reply (some message) = err (repo_provisioning_failed message)

unfoldable pub provision :
    Provisioning → ℕ → (repo_id created_by : String) → Action RepoStore RepoRecord
provision p now repo_id created_by = do
  raise_unless (valid_repo_id repo_id) invalid_repo_id
  lift (λ s. elim (get repo_id s) [ none ↦ ok tt | some _ ↦ err repo_already_provisioned ])
  lift (λ s. init_reply (p.run_dolt_init (p.join p.dolt_repos_root_path repo_id)))
  create (record {
    repo_id = repo_id;
    dolt_path = p.join p.dolt_repos_root_path repo_id;
    created_at = now;
    created_by = created_by;
  })
  pure (record {
    repo_id = repo_id;
    dolt_path = p.join p.dolt_repos_root_path repo_id;
    created_at = now;
    created_by = created_by;
  })
