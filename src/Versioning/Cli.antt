-- ===== src/Versioning/Cli.antt =====
-- What the versioning services share: the lookup of a repository, a command of the `dolt` program,
-- which reads and changes a world of its own, and the errors that its messages stand for.
use deltix_server.Common.{Bool, ◌||◌, String, none, some, if◌then◌else◌, Result, ok, err}
use deltix_server.Versioning.Names.{valid_repo_id, says}
use deltix_server.Versioning.Types.{
  RepoRecord, VersioningError, repo_not_found, branch_already_exists, branch_not_found,
  invalid_commit_reference, other_error, Action,
}
use deltix_server.Versioning.Repos.{RepoStore}
use deltix_server.Versioning.Repos

-- A command: its answer, or an error's message.
abbrev pub Command : Type 0 → Type 0 → Type 0
Command W A = W → Result String A × W

-- `requireRepo` of BranchService, MergeService, LogService and DiffService.
unfoldable pub require_repo : String → RepoStore → Result VersioningError RepoRecord
require_repo repo_id s =
    if valid_repo_id repo_id
    then elim (Repos.get repo_id s) [ none ↦ err repo_not_found | some repo ↦ ok repo ]
    else err repo_not_found

abbrev pub reply :
    {A : Type 0} → (String → VersioningError) → Result String A → Result VersioningError A
reply translate (ok a) = ok a
reply translate (err message) = err (translate message)

-- `translateErrors(() => command)`
abbrev pub translated : {W A : Type 0} → (String → VersioningError) → Command W A → Action W A
translated translate command w = (reply translate (command w).0, (command w).1)

-- `lower.includes('not found') || lower.includes('unknown branch')`
unfoldable pub names_no_branch : String → Bool
unfolding says
names_no_branch message = says message "not found" || says message "unknown branch"

-- `translateErrors` of BranchService.
unfoldable pub branch_error : String → VersioningError
unfolding says
branch_error message =
    if says message "already exists"
    then branch_already_exists message
    else if names_no_branch message
    then branch_not_found message
    else other_error message

-- `translateErrors` of MergeService.
unfoldable pub merge_error : String → VersioningError
merge_error message =
    if names_no_branch message then branch_not_found message else other_error message

-- `translateErrors` of LogService.
unfoldable pub log_error : String → VersioningError
unfolding says
log_error message =
    if names_no_branch message
    then branch_not_found message
    else if says message "unsafe commit hash"
    then invalid_commit_reference
    else other_error message

-- `translateErrors` of DiffService.
unfoldable pub diff_error : String → VersioningError
unfolding says
diff_error message =
    if names_no_branch message || says message "branch not found"
    then branch_not_found message
    else if says message "unsafe ref" || says message "commit" || says message "hash"
    then invalid_commit_reference
    else other_error message
