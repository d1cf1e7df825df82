-- ===== src/Versioning/Tests.antt =====
-- Runs of the versioning context on a small shop.
use deltix_server.Versioning.Closure.{by_table, expand, requested_twice, run, scan}
use deltix_server.Versioning.Names.{unique_sorted, valid_repo_id, valid_table}
use deltix_server.Versioning.Preferences.{normalize_tables, require_repo}
use deltix_server.Table.{find}
use deltix_server.Common.{
  ◌≡◌, ◌↔◌, ◌⊎◌, refl, true, false, not, ◌&&◌, String, List, [], ◌∷◌, none, some, string_eq, ok,
  err, contains,
}
use deltix_server.Transfer.Types.{schema_and_data}
use deltix_server.Versioning.Names.{
  invalid_branch, valid_branch, has_dots, last_is, codes, valid_repo_id, valid_table, unique_sorted,
  trim,
}
use deltix_server.Versioning.Names.Safe.{invalid_branch-eq}
use deltix_server.Versioning.Types.{
  RepoRecord, RepoSyncPreference, invalid_repo_id, sync_preference_conflict,
}
use deltix_server.Versioning.Repos.{
  RepoStore, Provisioning, provision, get_sync_preference, upsert_sync_preference, get,
}
use deltix_server.Table.{find, update}
use deltix_server.Table.Keys.{insert}
use deltix_server.Versioning.Repos.Laws.{Outcome, provision-Outcome}
use deltix_server.Versioning.Closure.{
  ForeignKeyEdge, search_closure, compute_closure, run, requested_twice, expand, by_table, scan,
}
use deltix_server.Versioning.Closure.Reachable.{Reach, search_closure_ends, compute_closure_iff}
use deltix_server.Versioning.Preferences.{
  EdgeReader, SyncPlanRequest, PushSyncValidationResult, upsert, validate_push_options,
  require_repo, normalize_tables, edges_for, assert_no_excluded_dependencies, build_plan,
}
use deltix_server.Versioning.Preferences.Plan.{IsClosed}
use deltix_server.Versioning.Preferences.Laws.{preference, upsert_exact, Stored, upsert_then_get}
use deltix_server.Versioning.Preferences.Push.{Validated, validate_push_options_sound}

abbrev edge : String → String → ForeignKeyEdge
edge u v = record { table_name = u; referenced_table_name = v; constraint_name = "fk" }

abbrev edges : List ForeignKeyEdge
edges = edge "orders" "customers" ∷ edge "customers" "countries" ∷ []

compute_closure_iff_example :
    (contains (compute_closure ("orders" ∷ []) edges) "countries" ≡ true)
    ↔ ∥ Reach edges ("orders" ∷ []) "countries" ∥₁
compute_closure_iff_example = compute_closure_iff ("orders" ∷ []) edges "countries"

search_closure_ends_example : (search_closure ("orders" ∷ []) edges).queue ≡ []
search_closure_ends_example = search_closure_ends ("orders" ∷ []) edges

closure_run : compute_closure ("orders" ∷ []) edges ≡ "countries" ∷ "customers" ∷ "orders" ∷ []
unfolding compute_closure search_closure run requested_twice expand scan by_table unique_sorted
closure_run = refl

abbrev shop : RepoRecord
shop = record { repo_id = "shop"; dolt_path = "/dolt/shop"; created_at = 1; created_by = "ana" }

abbrev store : RepoStore
store = record { repos = shop ∷ []; preferences = [] }

abbrev read_edges : EdgeReader
read_edges path = ok edges

abbrev all_tables : List String
all_tables = "orders" ∷ "customers" ∷ "countries" ∷ []

abbrev request : List String → SyncPlanRequest
request tables = record { mode = schema_and_data; tables = some tables }

upsert_exact_example :
    (IsClosed edges ("orders" ∷ [])
      × (upsert read_edges 5 "shop" (request ("orders" ∷ [])) store ≡ (
        ok (preference 5 "shop" schema_and_data ("orders" ∷ [])),
        upsert_sync_preference (preference 5 "shop" schema_and_data ("orders" ∷ [])) store,
      )))
    ⊎ ((absent : List String) × (upsert read_edges 5 "shop" (request ("orders" ∷ [])) store
          ≡ (err (sync_preference_conflict absent), store))
        × ((v : String)
            → (contains absent v ≡ true)
              ↔ (∥ Reach edges ("orders" ∷ []) v ∥₁ × (contains ("orders" ∷ []) v ≡ false)))
        × ¬ IsClosed edges ("orders" ∷ []))
unfolding require_repo valid_repo_id codes get find normalize_tables valid_table unique_sorted
upsert_exact_example =
    upsert_exact read_edges 5 "shop" (request ("orders" ∷ [])) store {repo = shop} refl refl refl

abbrev stored_preference : RepoSyncPreference
stored_preference = preference 5 "shop" schema_and_data ("countries" ∷ "customers" ∷ "orders" ∷ [])

abbrev stored : RepoStore
stored = record store { preferences = stored_preference ∷ [] }

upsert_then_get_example :
    (r : RepoSyncPreference) × Stored stored_preference "shop" store stored r
    × (schema_and_data ≡ schema_and_data)
unfolding upsert require_repo valid_repo_id codes get find normalize_tables valid_table edges_for
    assert_no_excluded_dependencies build_plan compute_closure search_closure run unique_sorted
    requested_twice expand insert by_table scan trim upsert_sync_preference get_sync_preference
    update
upsert_then_get_example = upsert_then_get read_edges 5 "shop" (request all_tables) store refl

abbrev push_result : PushSyncValidationResult
push_result = record {
  repo_id = "shop";
  mode = schema_and_data;
  requested_tables = some ("countries" ∷ "customers" ∷ "orders" ∷ []);
  resolved_tables = some ("countries" ∷ "customers" ∷ "orders" ∷ []);
  auto_included_tables = [];
  dry_run = false;
}

validate_push_options_sound_example :
    Validated edges none (get_sync_preference "shop" stored) push_result × (stored ≡ stored)
unfolding validate_push_options require_repo valid_repo_id codes get find normalize_tables
    valid_table edges_for assert_no_excluded_dependencies build_plan compute_closure search_closure
    run unique_sorted requested_twice expand insert by_table scan trim upsert_sync_preference
    get_sync_preference update
validate_push_options_sound_example =
    validate_push_options_sound read_edges "shop" none stored {repo = shop} refl refl refl

abbrev dolt : Provisioning
dolt = record {
  run_dolt_init = λ path. none;
  join = λ root name. name;
  dolt_repos_root_path = "/dolt";
}

provision-Outcome_example : Outcome dolt "books" "ana" store (provision dolt 9 "books" "ana" store)
provision-Outcome_example = provision-Outcome dolt 9 "books" "ana" store

provision_run : (provision dolt 9 "../books" "ana" store).0 ≡ err invalid_repo_id
unfolding provision valid_repo_id codes
provision_run = refl

invalid_branch-eq_example :
    invalid_branch "feature/one"
    ≡ not (
        valid_branch "feature/one"
        && not (has_dots (codes "feature/one"))
        && not (last_is 47 (codes "feature/one")))
invalid_branch-eq_example = invalid_branch-eq "feature/one"

branch_runs :
    (invalid_branch "feature/one" ≡ false)
    × (invalid_branch " x" ≡ true)
    × (invalid_branch "a..b" ≡ true)
unfolding invalid_branch
branch_runs = (refl, refl, refl)
