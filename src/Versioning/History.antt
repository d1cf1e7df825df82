-- ===== src/Versioning/History.antt =====
-- contexts/versioning/log.service.ts, diff.service.ts and merge.service.ts. The commands are
-- parameters on a world; a number of commits is a natural number or, when it is no integer, none.
pub mod Laws
use Prim.Native.String as Text
use deltix_server.Common.{
  ℕ, Bool, true, false, not, ◌&&◌, String, List, Option, none, some, if◌then◌else◌, ◌==◌, string_eq,
  nat_eq, leb, min, Result, ok, err,
}
use deltix_server.Versioning.Names.{invalid_branch, invalid_ref, says}
use deltix_server.Versioning.Types.{
  VersioningError, RepoRecord, MergeConflictTable, invalid_branch_name, invalid_commit_reference,
  invalid_pagination_limit, merge_conflict, other_error, Action, pure, raise, lift, ◌>>=◌, ◌>>◌,
  raise_unless,
}
use deltix_server.Versioning.Repos.{RepoStore}
use deltix_server.Versioning.Cli.{
  Command, require_repo, translated, reply, log_error, diff_error, merge_error,
}

-- A JavaScript number given as the limit: a natural number, or another number.
pub data Limit : Type 0 where
  whole : ℕ → Limit
  other_number : Limit

unfoldable pub normalize_limit : Option Limit → Result VersioningError ℕ
normalize_limit none = ok 50
normalize_limit (some other_number) = err invalid_pagination_limit
normalize_limit (some (whole n)) = if leb 1 n then ok (min n 200) else err invalid_pagination_limit

-- `if (options.branch) this.assertBranchName(options.branch)`: an empty name is as good as none.
abbrev pub given : Option String → Option String
given none = none
given (some name) = if name == "" then none else some name

abbrev pub check_branch : Option String → Result VersioningError (Unit {0})
check_branch none = ok tt
check_branch (some name) = if invalid_branch name then err invalid_branch_name else ok tt

-- `LogService.list`, of entries of some type.
unfoldable pub list :
    {W E : Type 0}
    → (read_log : String → Option String → ℕ → Command W (List E)) → RepoStore
    → String
    → (branch : Option String) → (limit : Option Limit) → Action W (List E)
list read_log store repo_id branch limit = do
  repo ← lift (λ _. require_repo repo_id store)
  lift (λ _. check_branch (given branch))
  n ← lift (λ _. normalize_limit limit)
  translated log_error (read_log repo.dolt_path (given branch) n)

-- `DiffService.read`
unfoldable pub read :
    {W D : Type 0}
    → (read_diff : (path from_ref to_ref : String) → Command W D) → RepoStore
    → (repo_id from_ref to_ref : String) → Action W D
read read_diff store repo_id from_ref to_ref = do
  raise_unless (not (invalid_ref from_ref)) invalid_commit_reference
  raise_unless (not (invalid_ref to_ref)) invalid_commit_reference
  repo ← lift (λ _. require_repo repo_id store)
  translated diff_error (read_diff repo.dolt_path from_ref to_ref)

pub record MergeOutput : Type 0 where
  pub exit_code : ℕ
  pub stdout : String
  pub stderr : String

pub record MergeCli (W : Type 0) : Type 0 where
  pub merge :
      String → (source_branch : String) → (target_branch : Option String) → Command W MergeOutput
  pub abort : String → Command W (Unit {0})
  pub read_conflicts : String → Command W (List MergeConflictTable)
  pub latest_commit_hash : String → Command W String
  pub current_branch : String → Command W String

pub data MergeResult : Type 0 where
  merged :
      (target_branch source_branch commit_hash : String)
      → (fast_forward : Bool) → (message : String) → MergeResult
  up_to_date : (target_branch source_branch message : String) → MergeResult

-- `text || fallback`
abbrev pub or_text : String → String → String
or_text text fallback = if text == "" then fallback else text

abbrev pub target_or_current : {W : Type 0} → MergeCli W → String → Option String → Action W String
target_or_current cli path none = translated merge_error (cli.current_branch path)
target_or_current cli path (some target) = pure target

-- What follows a merge whose output is known; `combined` is its text.
unfoldable pub conclude :
    {W : Type 0}
    → MergeCli W
    → String
    → (source target combined : String) → MergeOutput
    → Action W MergeResult
unfolding says
conclude cli path source target combined out =
    if out.exit_code == 0
    then if says combined "up to date"
      then pure (up_to_date target source (or_text out.stdout "Already up to date."))
      else (translated other_error (cli.latest_commit_hash path) >>= λ hash. pure (
          merged target source hash (says combined "fast-forward")
            (or_text out.stdout "Merge completed successfully.")))
    else if says combined "conflict"
    then (translated other_error (cli.read_conflicts path) >>= λ conflicts.
        translated other_error (cli.abort path) >> raise (merge_conflict conflicts source target))
    else raise (other_error (or_text out.stderr (or_text out.stdout "dolt merge failed")))

-- `MergeService.merge`; the two texts of the output are joined by a line feed.
unfoldable pub merge :
    {W : Type 0}
    → MergeCli W
    → RepoStore
    → (repo_id source_branch : String) → (target_branch : Option String) → Action W MergeResult
merge cli store repo_id source target = do
  raise_unless (not (invalid_branch source)) invalid_branch_name
  lift (λ _. check_branch (given target))
  repo ← lift (λ _. require_repo repo_id store)
  intended ← target_or_current cli repo.dolt_path (given target)
  out ← translated merge_error (cli.merge repo.dolt_path source (given target))
  conclude cli repo.dolt_path source intended (Text.◌++◌ out.stdout (Text.◌++◌ "\n" out.stderr)) out
