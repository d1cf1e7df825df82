-- ===== src/Versioning/ServiceTests.antt =====
-- Runs of the services on folders that keep a set of branches and a head.
use deltix_server.Versioning.Names.{invalid_branch}
use deltix_server.Versioning.History.{conclude}
use deltix_server.Versioning.Imports.{import_loop}
use deltix_server.Versioning.Names.{codes, valid_repo_id}
use deltix_server.Table.{find}
use deltix_server.Versioning.History.{normalize_limit}
use deltix_server.Common.{
  ℕ, ◌+◌, ◌≡◌, ◌⊎◌, inl, inr, refl, ap, Bool, true, false, ◌&&◌, String, List, [], ◌∷◌, Option,
  none, some, string_eq, ◌==◌, if◌then◌else◌, ok, err, arith, eq_iff, Bool-cases,
}
use deltix_server.Versioning.Types.{RepoRecord}
use deltix_server.Versioning.Repos.{RepoStore, get}
use deltix_server.Versioning.Cli.{Command, require_repo}
use deltix_server.Versioning.Branches.{BranchCli}
use deltix_server.Versioning.Branches.Survive.{
  Documented, BranchCall, create, checkout, delete, Intact, exec_all, exec_all-Intact,
}
use deltix_server.Versioning.History.{whole, MergeCli, given, list, merge}
use deltix_server.Versioning.History.Laws.{merge_aborts}
use deltix_server.Versioning.Imports.{ImportedCommit, ImportCli, truthy, import_commits}
use deltix_server.Versioning.Imports.Laws.{Imported, Forward, import_commits_sound}

abbrev shop : RepoRecord
shop = record { repo_id = "shop"; dolt_path = "/dolt/shop"; created_at = 1; created_by = "ana" }

abbrev store : RepoStore
store = record { repos = shop ∷ []; preferences = [] }

record World : Type 0 where
  has : (path branch : String) → Bool
  head : (path : String) → String

abbrev folders : BranchCli World
folders = record {
  list_branches = λ p w. (ok [], w);
  current_branch = λ p w. (ok (w.head p), w);
  create_branch =
      λ p n w. (ok tt, record w { has = λ q b. if p == q && n == b then true else w.has q b });
  checkout_branch = λ p n w. (
    if w.has p n then ok tt else err "branch not found",
    record w { head = λ q. if p == q && w.has p n then n else w.head q },
  );
  delete_branch =
      λ p n w. (ok tt, record w { has = λ q b. if p == q && n == b then false else w.has q b });
}

moved :
    (w : World) (p n q : String)
    → ((if p == q && w.has p n then n else w.head q) ≡ w.head q)
      ⊎ (w.has q n ≡ true) × ((if p == q && w.has p n then n else w.head q) ≡ n)
moved w p n q = elim (Bool-cases (p == q)) [
  | inr other ↦ inl (ground (arith, other))
  | inl same ↦
      let e = ap (λ k. w.has k n) ((eq_iff p q).0 same) in
      elim (Bool-cases (w.has p n)) [
        | inr missing ↦ inl (ground (arith, missing))
        | inl there ↦ inr (ground (arith, e, there), ground (arith, same, there))
      ]
]

documented : Documented folders
documented = record {
  has = λ w. w.has;
  head = λ w. w.head;
  list_reads = λ w p. refl;
  current_reads = λ w p. refl;
  current_is_head = λ w p name h. ground (arith, h);
  create_keeps = λ w p n q b h. ground (arith, h);
  create_head = λ w p n q. refl;
  checkout_keeps = λ w p n q b h. h;
  checkout_head = λ w p n q. moved w p n q;
  delete_keeps = λ w p n q b h apart. ground (arith, h, apart);
  delete_head = λ w p n q. refl;
}

abbrev world : World
world = record { has = λ p b. p == "/dolt/shop" && b == "main"; head = λ p. "main" }

abbrev calls : List BranchCall
calls =
    create "shop" "dev" ∷ checkout "shop" "dev" ∷ delete "shop" "main" ∷ delete "shop" "dev" ∷ []

exec_all-Intact_example :
    Intact folders documented "/dolt/shop" (exec_all folders store calls world)
unfolding documented
exec_all-Intact_example = exec_all-Intact folders documented store "/dolt/shop" calls world start
  where
    start : Intact folders documented "/dolt/shop" world
    start = (refl, refl)

abbrev read_log : String → Option String → ℕ → Command ℕ (List String)
read_log path branch n w = (ok [], n)

list_run : list read_log store "shop" none (some (whole 900)) 0 ≡ (ok [], 200)
unfolding list require_repo valid_repo_id codes get find normalize_limit
list_run = refl

-- A merge that conflicts; the world counts the commands.
abbrev clashing : MergeCli ℕ
clashing = record {
  merge = λ path source target w.
      (ok (record { exit_code = 1; stdout = ""; stderr = "CONFLICT in orders" }), w + 1);
  abort = λ path w. (ok tt, w + 1);
  read_conflicts = λ path w. (ok [], w + 1);
  latest_commit_hash = λ path w. (ok "h", w + 1);
  current_branch = λ path w. (ok "main", w + 1);
}

merge_aborts_example :
    (repo : RepoRecord) × (before : ℕ) × (require_repo "shop" store ≡ ok repo)
    × (clashing.abort repo.dolt_path before ≡ (ok tt, 3))
    × (◌≡◌ {A = String} "dev" "dev")
    × ((name : String) → given (some "main") ≡ some name → ◌≡◌ {A = String} "main" name)
unfolding merge invalid_branch require_repo valid_repo_id get find conclude
merge_aborts_example = merge_aborts clashing store "shop" "dev" (some "main") 0 {cs = []} refl

-- A branch with a head; an import answers a new hash.
abbrev imports : ImportCli ℕ
imports = record {
  import_commit = λ path branch commit w. (ok "h2", w + 1);
  branch_head = some (λ path branch w. (ok (some "h1"), w));
}

abbrev commits : List ImportedCommit
commits =
    record { message = "m"; author = "ana"; tables = [] }
    ∷ record {
      message = "n";
      author = "ana";
      tables = record { name = "t"; schema = "s"; rows = "r" } ∷ [];
    }
    ∷ []

import_commits_sound_example :
    (repo : RepoRecord) × (w1 : ℕ) × (get "shop" store ≡ some repo)
    × Forward imports.branch_head repo.dolt_path "main" (truthy (some "h1")) 0 w1
    × Imported imports repo.dolt_path "main" "" w1 commits "h2" 1
    × (◌==◌ {A = String} "h2" "" ≡ false)
    × (◌≡◌ {A = String} "shop" "shop")
unfolding import_commits get find import_loop
import_commits_sound_example =
    import_commits_sound imports store "shop" commits (some "h1") "main" 0
      {r = record { commit_hash = "h2"; repo = "shop" }} refl
