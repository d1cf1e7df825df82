-- ===== src/Versioning/Branches.antt =====
-- contexts/versioning/branch.service.ts. The commands of dolt-branch-cli.ts are parameters on a
-- world; the mutex lets one of these actions run at a time on a repository.
pub mod Survive
use deltix_server.Common.{ℕ, Bool, true, not, String, List, ◌==◌, string_eq, Result, ok, err}
use deltix_server.Versioning.Names.{invalid_branch}
use deltix_server.Versioning.Types.{
  VersioningError, RepoRecord, invalid_branch_name, protected_branch, Action, pure, lift, ◌>>=◌,
  ◌>>◌, raise_unless,
}
use deltix_server.Versioning.Repos.{RepoStore}
use deltix_server.Versioning.Cli.{Command, require_repo, translated, branch_error}

pub record BranchSummary : Type 0 where
  pub name : String
  pub is_current : Bool

-- Each command takes the folder of the repository first.
pub record BranchCli (W : Type 0) : Type 0 where
  pub list_branches : String → Command W (List BranchSummary)
  pub current_branch : String → Command W String
  pub create_branch : String → String → Command W (Unit {0})
  pub checkout_branch : String → String → Command W (Unit {0})
  pub delete_branch : String → String → Command W (Unit {0})

pub record Created : Type 0 where
  pub current : String
  pub created : String

module _ {W : Type 0} (cli : BranchCli W) (store : RepoStore) where
  unfoldable pub list : String → Action W (List BranchSummary)
  list repo_id = do
    repo ← lift (λ _. require_repo repo_id store)
    translated branch_error (cli.list_branches repo.dolt_path)

  unfoldable pub current : String → Action W String
  current repo_id = do
    repo ← lift (λ _. require_repo repo_id store)
    translated branch_error (cli.current_branch repo.dolt_path)

  unfoldable pub create : (repo_id branch_name : String) → Action W Created
  create repo_id branch_name = do
    raise_unless (not (invalid_branch branch_name)) invalid_branch_name
    repo ← lift (λ _. require_repo repo_id store)
    translated branch_error (cli.create_branch repo.dolt_path branch_name)
    name ← translated branch_error (cli.current_branch repo.dolt_path)
    pure (record { current = name; created = branch_name })

  unfoldable pub checkout : (repo_id branch_name : String) → Action W String
  checkout repo_id branch_name = do
    raise_unless (not (invalid_branch branch_name)) invalid_branch_name
    repo ← lift (λ _. require_repo repo_id store)
    translated branch_error (cli.checkout_branch repo.dolt_path branch_name)
    pure branch_name

  unfoldable pub delete : (repo_id branch_name : String) → Action W (Unit {0})
  delete repo_id branch_name = do
    raise_unless (not (invalid_branch branch_name)) invalid_branch_name
    repo ← lift (λ _. require_repo repo_id store)
    name ← translated branch_error (cli.current_branch repo.dolt_path)
    raise_unless (not (name == branch_name)) protected_branch
    raise_unless (not (branch_name == "main")) protected_branch
    translated branch_error (cli.delete_branch repo.dolt_path branch_name)
