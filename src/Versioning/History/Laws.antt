-- ===== src/Versioning/History/Laws.antt =====
-- What the services ask of the commands: bounded reads of the log, checked references, and a merge
-- that is aborted when it conflicts.
use Prim.Native.String as Text
use deltix_server.Common.{
  ℕ, ◌≡◌, ◌≤◌, ◌⊎◌, inl, inr, String, List, Option, none, some, ◌==◌, string_eq, nat_eq, ok, err,
  arith, Bool-cases, Result-cases,
}
use deltix_server.Versioning.Names.{invalid_branch, says}
use deltix_server.Versioning.Types.{VersioningError, RepoRecord, MergeConflictTable, merge_conflict}
use deltix_server.Versioning.Repos.{RepoStore}
use deltix_server.Versioning.Cli.{Command, require_repo, translated, log_error, merge_error}
use deltix_server.Versioning.History.{
  Limit, whole, normalize_limit, given, check_branch, list, MergeOutput, MergeCli, conclude,
  target_or_current, merge,
}

limit_bounds : (l : Option Limit) {n : ℕ} → normalize_limit l ≡ ok n → (1 ≤ n) × (n ≤ 200)
unfolding normalize_limit
limit_bounds none h = ground (arith, h)
limit_bounds (some (whole n)) h = ground (arith, h)
limit_bounds (some Limit.other_number) h = absurd (ground (arith, h))

module _ {W E : Type 0} (read_log : String → Option String → ℕ → Command W (List E)) where
  -- Reading the log is refused with nothing run, or the command is run once, on the folder of the
  -- repository, for 1 to 200 commits of the current branch or of one whose name is valid.
  pub list_bounds :
      (store : RepoStore) (repo_id : String) (branch : Option String) (limit : Option Limit) (w : W)
      → ((e : VersioningError) × (list read_log store repo_id branch limit w ≡ (err e, w)))
        ⊎ ((repo : RepoRecord) × (n : ℕ) × (require_repo repo_id store ≡ ok repo)
            × (check_branch (given branch) ≡ ok tt)
            × ((1 ≤ n) × (n ≤ 200))
            × (list read_log store repo_id branch limit w
                ≡ translated log_error (read_log repo.dolt_path (given branch) n) w))
  unfolding list
  list_bounds store repo_id branch limit w = elim (Result-cases (require_repo repo_id store)) [
    | inr (e, bad) ↦ inl (e, ground (arith, bad))
    | inl (repo, known) ↦ elim (Result-cases (check_branch (given branch))) [
      | inr (e, bad) ↦ inl (e, ground (arith, known, bad))
      | inl (u, valid) ↦ elim (Result-cases (normalize_limit limit)) [
        | inr (e, bad) ↦ inl (e, ground (arith, known, valid, bad))
        | inl (n, size) ↦
            inr (repo, n, known, valid, limit_bounds limit size, ground (arith, known, valid, size))
      ]
    ]
  ]

merge_error_plain :
    (e : String) {cs : List MergeConflictTable} {src tgt : String}
    → ¬ (merge_error e ≡ merge_conflict cs src tgt)
unfolding merge_error
merge_error_plain e q = ground (arith, q)

module _ {W : Type 0} (cli : MergeCli W) where
  conclude_aborts :
      (path source target combined : String) (out : MergeOutput) (w : W)
      {cs : List MergeConflictTable} {src tgt : String} {w' : W}
      → conclude cli path source target combined out w ≡ (err (merge_conflict cs src tgt), w')
      → (before : W) × (cli.abort path before ≡ (ok tt, w')) × (src ≡ source) × (tgt ≡ target)
  unfolding conclude
  conclude_aborts path source target combined out w {cs} {src} {tgt} {w'} h =
      elim (Bool-cases (out.exit_code == 0)) [
        | inl clean ↦ elim (Bool-cases (says combined "up to date")) [
          | inl same ↦ absurd (ground (arith, h, clean, same))
          | inr moved ↦ elim (Result-cases (cli.latest_commit_hash path w).0) [
            | inl (hash, done) ↦ absurd (ground (arith, h, clean, moved, done))
            | inr (e, failed) ↦ absurd (ground (arith, h, clean, moved, failed))
          ]
        ]
        | inr broken ↦ elim (Bool-cases (says combined "conflict")) [
          | inr other ↦ absurd (ground (arith, h, broken, other))
          | inl clash ↦ elim (Result-cases (cli.read_conflicts path w).0) [
            | inr (e, failed) ↦ absurd (ground (arith, h, broken, clash, failed))
            | inl (conflicts, known) ↦
                let before = (cli.read_conflicts path w).1 in
                elim (Result-cases (cli.abort path before).0) [
                  | inr (e, failed) ↦ absurd (ground (arith, h, broken, clash, known, failed))
                  | inl (u, done) ↦ (
                    before,
                    ground (arith, h, broken, clash, known, done),
                    ground (arith, h, broken, clash, known, done),
                    ground (arith, h, broken, clash, known, done),
                  )
                ]
          ]
        ]
      ]

  target_no_conflict :
      (path : String) (target : Option String) (w : W) {cs : List MergeConflictTable}
      {src tgt : String}
      → ¬ ((target_or_current cli path target w).0 ≡ err (merge_conflict cs src tgt))
  unfolding merge_error
  target_no_conflict path none w {cs} {src} {tgt} h =
      elim (Result-cases (cli.current_branch path w).0) [
        | inl (n, fine) ↦ ground (arith, h, fine)
        | inr (e, failed) ↦ ground (arith, h, failed)
      ]
  target_no_conflict path (some target) w h = ground (arith, h)

  check_no_conflict :
      (target : Option String) {e : VersioningError}
      → check_branch target ≡ err e
      → e ≡ VersioningError.invalid_branch_name
  check_no_conflict none h = absurd (ground (arith, h))
  check_no_conflict (some target) h = ground (arith, h)

  require_no_conflict :
      (repo_id : String) (store : RepoStore) {e : VersioningError}
      → require_repo repo_id store ≡ err e
      → e ≡ VersioningError.repo_not_found
  unfolding require_repo
  require_no_conflict repo_id store h = ground (arith, h)

  -- When a merge rejects with its conflicts, the last thing that ran is the command that aborts the
  -- merge in the repository's folder, and it succeeded; the error names the source branch of the call
  -- and, where one is given, its target.
  pub merge_aborts :
      (store : RepoStore) (repo_id source : String) (target : Option String) (w : W)
      {cs : List MergeConflictTable} {src tgt : String} {w' : W}
      → merge cli store repo_id source target w ≡ (err (merge_conflict cs src tgt), w')
      → (repo : RepoRecord) × (before : W) × (require_repo repo_id store ≡ ok repo)
        × (cli.abort repo.dolt_path before ≡ (ok tt, w'))
        × (src ≡ source)
        × ((name : String) → given target ≡ some name → tgt ≡ name)
  unfolding merge
  merge_aborts store repo_id source target w {cs} {src} {tgt} {w'} h =
      elim (Bool-cases (invalid_branch source)) [
        | inl bad ↦ absurd (ground (arith, h, bad))
        | inr good ↦ elim (Result-cases (check_branch (given target))) [
          | inr (e, bad) ↦
              absurd (ground (arith, h, good, bad, check_no_conflict (given target) bad))
          | inl (u, valid) ↦ elim (Result-cases (require_repo repo_id store)) [
            | inr (e, bad) ↦
                absurd (ground (arith, h, good, valid, bad, require_no_conflict repo_id store bad))
            | inl (repo, known) ↦
                let p = repo.dolt_path in
                let asked = target_or_current cli p (given target) in
                elim (Result-cases (asked w).0) [
                  | inr (e, bad) ↦ absurd (
                      target_no_conflict p (given target) w {cs = cs} {src = src} {tgt = tgt}
                        (ground (arith, h, good, valid, known, bad)))
                  | inl (intended, found) ↦
                      elim (Result-cases (cli.merge p source (given target) (asked w).1).0) [
                        | inr (e, bad) ↦ absurd (
                            merge_error_plain e {cs = cs} {src = src} {tgt = tgt}
                              (ground (arith, h, good, valid, known, found, bad)))
                        | inl (out, ran) ↦
                            let (before, aborted, from, to) =
                              conclude_aborts p source intended
                                (Text.◌++◌ out.stdout (Text.◌++◌ "\n" out.stderr)) out
                                (cli.merge p source (given target) (asked w).1).1 {cs = cs}
                                {src = src} {tgt = tgt} {w' = w'}
                                (ground (arith, h, good, valid, known, found, ran)) in
                            (
                              repo,
                              before,
                              known,
                              aborted,
                              from,
                              λ name e. ground (arith, to, chosen p name e found),
                            )
                      ]
                ]
          ]
        ]
      ]
    where
      chosen :
          (path name : String) {intended : String}
          → given target ≡ some name
          → (target_or_current cli path (given target) w).0 ≡ ok intended
          → intended ≡ name
      chosen path name e f = ground (arith, e, f)
