-- ===== src/Versioning/Imports.antt =====
-- contexts/versioning/commit-import.service.ts, commit-export.service.ts and commit.service.ts. The
-- commands are parameters on a world.
pub mod Laws
use deltix_server.Common.{
  ℕ, Bool, true, false, not, ◌&&◌, String, List, [], ◌∷◌, Option, none, some, if◌then◌else◌, ◌==◌,
  string_eq, Result, ok, err,
}
use deltix_server.Versioning.Types.{
  VersioningError, RepoRecord, commit_import_error, commit_failed, repo_not_found, non_fast_forward,
  other_error, Action, pure, raise, lift, ◌>>=◌, ◌>>◌, raise_unless,
}
use deltix_server.Versioning.Repos.{RepoStore}
use deltix_server.Versioning.Cli.{Command, translated}
use deltix_server.Versioning.Repos

pub record ImportedTable : Type 0 where
  pub name : String
  pub schema : String
  pub rows : String

pub record ImportedCommit : Type 0 where
  pub message : String
  pub author : String
  pub tables : List ImportedTable

pub record CommitImportResult : Type 0 where
  pub commit_hash : String
  pub repo : String

-- The command that imports a commit onto a branch, and the reader of a branch's head, which may be
-- absent.
pub record ImportCli (W : Type 0) : Type 0 where
  pub import_commit : (path branch : String) → ImportedCommit → Command W String
  pub branch_head : Option ((path branch : String) → Command W (Option String))

-- A text that is absent or empty counts as false.
abbrev pub truthy : Option String → Option String
truthy none = none
truthy (some text) = if text == "" then none else some text

abbrev pub has_tables : ImportedCommit → Bool
has_tables commit = elim commit.tables [ [] ↦ false | t ∷ ts ↦ true ]

-- The comparison of `from` with the head of the branch.
abbrev pub compare_head : {W : Type 0} → String → Option String → Action W (Unit {0})
compare_head base none = pure tt
compare_head base (some head) = if head == base then pure tt else raise (non_fast_forward base head)

abbrev pub check_head :
    {W : Type 0}
    → Option ((path branch : String) → Command W (Option String))
    → (path branch : String) → Option String
    → Action W (Unit {0})
check_head reader path branch none = pure tt
check_head none path branch (some base) = pure tt
check_head (some reader) path branch (some base) =
    translated other_error (reader path branch) >>= λ head. compare_head base (truthy head)

-- The loop over the commits; the last hash is passed on.
unfoldable pub import_loop :
    {W : Type 0}
    → ImportCli W
    → (path branch : String) → (last : String) → List ImportedCommit
    → Action W String
import_loop cli path branch last [] = pure last
import_loop cli path branch last (commit ∷ commits) =
    if has_tables commit
    then (translated other_error (cli.import_commit path branch commit) >>= λ hash.
        import_loop cli path branch hash commits)
    else import_loop cli path branch last commits

unfoldable pub import_commits :
    {W : Type 0}
    → ImportCli W
    → RepoStore
    → (repo_id : String) → List ImportedCommit
    → (base : Option String) → (branch : String) → Action W CommitImportResult
import_commits cli store repo_id commits base branch = do
  repo ← lift (λ _. elim (Repos.get repo_id store) [
    | none ↦ err (commit_import_error "lookup")
    | some repo ↦ ok repo
  ])
  lift (λ _. elim commits [ [] ↦ err (commit_import_error "validation") | c ∷ cs ↦ ok tt ])
  check_head cli.branch_head repo.dolt_path branch (truthy base)
  last ← import_loop cli repo.dolt_path branch "" commits
  raise_unless (not (last == "")) (commit_import_error "import")
  pure (record { commit_hash = last; repo = repo_id })

-- `CommitExportService.requireRepo`, which does not test the identifier.
unfoldable pub require_any : String → RepoStore → Result VersioningError RepoRecord
require_any repo_id store = elim (Repos.get repo_id store) [
  | none ↦ err repo_not_found
  | some repo ↦ ok repo
]

unfoldable pub get_branch_head :
    {W : Type 0}
    → ((path branch : String) → Command W (Option String))
    → RepoStore
    → (repo_id branch : String) → Action W (Option String)
get_branch_head reader store repo_id branch = do
  repo ← lift (λ _. require_any repo_id store)
  translated other_error (reader repo.dolt_path branch)

-- `CommitService.recordPush`; no repository, no commit.
unfoldable pub record_push :
    {W : Type 0}
    → (commit : (path author job_id checksum : String) → Option (List String) → Command W String)
    → RepoStore
    → (repo username job_id checksum : String) → Option (List String)
    → Action W (Option String)
record_push commit store repo username job_id checksum tables w = elim (Repos.get repo store) [
  | none ↦ (ok none, w)
  | some found ↦
      (translated commit_failed (commit found.dolt_path username job_id checksum tables) >>= λ hash.
      pure (some hash))
        w
]
