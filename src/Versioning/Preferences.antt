-- ===== src/Versioning/Preferences.antt =====
-- contexts/versioning/sync-preference.service.ts. The foreign keys of a repository, which a command
-- reads from its folder, are a parameter.
pub mod Plan
pub mod Laws
pub mod Push
use deltix_server.Common.{
  ℕ, Bool, true, false, not, ◌&&◌, String, List, [], ◌∷◌, Option, none, some, if◌then◌else◌, ◌==◌,
  string_eq, Result, ok, err, map, all, filter, contains,
}
use deltix_server.Transfer.Types.{SyncMode, schema_only, schema_and_data, PushTicketSyncOptions}
use deltix_server.Versioning.Names.{valid_repo_id, valid_table, trim, unique_sorted}
use deltix_server.Versioning.Types.{
  RepoRecord, RepoSyncPreference, VersioningError, invalid_repo_id, repo_not_found,
  sync_preference_conflict, other_error, Action, pure, raise, lift, ◌>>=◌, ◌>>◌, raise_unless,
}
use deltix_server.Versioning.Repos.{RepoStore, get_sync_preference, upsert_sync_preference}
use deltix_server.Versioning.Closure.{ForeignKeyEdge, compute_closure}
use deltix_server.Versioning.Repos
use mathlib.Core.Option

-- `readForeignKeyEdges`: the edges of a folder, or an error's message.
abbrev pub EdgeReader : Type 0
EdgeReader = String → Result String (List ForeignKeyEdge)

pub record SyncPlanRequest : Type 0 where
  pub mode : SyncMode
  pub tables : Option (List String)

pub record SyncPlan : Type 0 where
  pub mode : SyncMode
  pub requested_tables : Option (List String)
  pub resolved_tables : Option (List String)
  pub auto_included_tables : List String

pub record PushSyncValidationResult : Type 0 where
  pub repo_id : String
  pub mode : SyncMode
  pub requested_tables : Option (List String)
  pub resolved_tables : Option (List String)
  pub auto_included_tables : List String
  pub dry_run : Bool

abbrev pub trimmed : List String → List String
trimmed tables = filter (λ table. not (table == "")) (map trim tables)

unfoldable pub normalize_tables :
    Option (List String) → Result VersioningError (Option (List String))
unfolding trim
normalize_tables none = ok none
normalize_tables (some tables) = elim (trimmed tables) [
  | [] ↦ ok none
  | t ∷ ts ↦
      if all valid_table (t ∷ ts) then ok (some (unique_sorted (t ∷ ts))) else err invalid_repo_id
]

unfoldable pub build_plan : SyncMode → Option (List String) → List ForeignKeyEdge → SyncPlan
build_plan mode none edges = record {
  mode = mode;
  requested_tables = none;
  resolved_tables = none;
  auto_included_tables = [];
}
build_plan mode (some requested) edges =
    let resolved = compute_closure requested edges in
    record {
      mode = mode;
      requested_tables = some requested;
      resolved_tables = some resolved;
      auto_included_tables = filter (λ table. not (contains requested table)) resolved;
    }

abbrev pub edge_reply :
    Result String (List ForeignKeyEdge) → Result VersioningError (List ForeignKeyEdge)
edge_reply (ok edges) = ok edges
edge_reply (err message) = err (other_error message)

-- `normalizedTables ? await this.readForeignKeyEdges(repo.doltPath) : []`
unfoldable pub edges_for :
    EdgeReader → RepoRecord → Option (List String) → Result VersioningError (List ForeignKeyEdge)
edges_for read repo none = ok []
edges_for read repo (some tables) = edge_reply (read repo.dolt_path)

abbrev pub excluded : List String → Option (List String) → Result VersioningError (Unit {0})
excluded [] requested = ok tt
excluded (t ∷ ts) none = ok tt
excluded (t ∷ ts) (some requested) = err (sync_preference_conflict (t ∷ ts))

unfoldable pub assert_no_excluded_dependencies : SyncPlan → Result VersioningError (Unit {0})
assert_no_excluded_dependencies plan = excluded plan.auto_included_tables plan.requested_tables

unfoldable pub require_repo : String → RepoStore → Result VersioningError RepoRecord
require_repo repo_id s =
    if valid_repo_id repo_id
    then elim (Repos.get repo_id s) [ none ↦ err repo_not_found | some repo ↦ ok repo ]
    else err invalid_repo_id

-- `SyncPreferenceService.get`
unfoldable pub get : String → RepoStore → Result VersioningError (Option RepoSyncPreference)
get repo_id s =
    if valid_repo_id repo_id then ok (get_sync_preference repo_id s) else err invalid_repo_id

-- The plan of a request: the common part of `upsert` and `preview`.
unfoldable pub preview : EdgeReader → String → SyncPlanRequest → Action RepoStore SyncPlan
preview read repo_id request = do
  repo ← lift (require_repo repo_id)
  tables ← lift (λ _. normalize_tables request.tables)
  edges ← lift (λ _. edges_for read repo tables)
  pure (build_plan request.mode tables edges)

unfoldable pub upsert :
    EdgeReader → (now : ℕ) → String → SyncPlanRequest → Action RepoStore RepoSyncPreference
upsert read now repo_id request = do
  repo ← lift (require_repo repo_id)
  tables ← lift (λ _. normalize_tables request.tables)
  edges ← lift (λ _. edges_for read repo tables)
  lift (λ _. assert_no_excluded_dependencies (build_plan request.mode tables edges))
  write (record {
    repo_id = repo_id;
    mode = (build_plan request.mode tables edges).mode;
    requested_tables = (build_plan request.mode tables edges).requested_tables;
    created_at = now;
    updated_at = now;
  })
  where
    write : RepoSyncPreference → Action RepoStore RepoSyncPreference
    write r s = (ok r, upsert_sync_preference r s)

abbrev pub stored_mode : Option RepoSyncPreference → SyncMode
stored_mode none = schema_and_data
stored_mode (some p) = p.mode

abbrev pub stored_tables : Option RepoSyncPreference → Option (List String)
stored_tables none = none
stored_tables (some p) = p.requested_tables

-- `overrides?.mode ?? stored?.mode ?? 'schema_and_data'`
abbrev pub chosen_mode : Option PushTicketSyncOptions → Option RepoSyncPreference → SyncMode
chosen_mode none stored = stored_mode stored
chosen_mode (some o) stored = Option.get_or o.mode (stored_mode stored)

abbrev pub chosen_tables :
    Option PushTicketSyncOptions → Option RepoSyncPreference → Option (List String)
chosen_tables none stored = stored_tables stored
chosen_tables (some o) stored = Option.get_or o.tables (stored_tables stored)

abbrev pub chosen_dry_run : Option PushTicketSyncOptions → Bool
chosen_dry_run none = false
chosen_dry_run (some o) = Option.get_or o.dry_run false

unfoldable pub validate_push_options :
    EdgeReader → String → Option PushTicketSyncOptions → Action RepoStore PushSyncValidationResult
validate_push_options read repo_id overrides = do
  repo ← lift (require_repo repo_id)
  stored ← lift (λ s. ok (get_sync_preference repo_id s))
  tables ← lift (λ _. normalize_tables (chosen_tables overrides stored))
  edges ← lift (λ _. edges_for read repo tables)
  lift (λ _.
      assert_no_excluded_dependencies (build_plan (chosen_mode overrides stored) tables edges))
  pure (answer (chosen_dry_run overrides) (build_plan (chosen_mode overrides stored) tables edges))
  where
    answer : Bool → SyncPlan → PushSyncValidationResult
    answer dry_run plan = record {
      repo_id = repo_id;
      mode = plan.mode;
      requested_tables = plan.requested_tables;
      resolved_tables = plan.resolved_tables;
      auto_included_tables = plan.auto_included_tables;
      dry_run = dry_run;
    }
