-- ===== src/Versioning/Imports/Laws.antt =====
-- A push of commits is imported whole and in order, or refused; a stale one is refused first.
use deltix_server.Common.{
  ◌≡◌, refl, subst, ◌⊎◌, inl, inr, true, false, String, List, [], ◌∷◌, Option, none, some, ◌==◌,
  string_eq, ok, err, arith, eq_iff, Bool-cases, Result-cases, Option-cases, List-cases,
}
use deltix_server.Versioning.Types.{RepoRecord, non_fast_forward}
use deltix_server.Versioning.Repos.{RepoStore}
use deltix_server.Versioning.Cli.{Command}
use deltix_server.Versioning.Imports.{
  ImportedCommit, CommitImportResult, ImportCli, truthy, has_tables, check_head, import_loop,
  import_commits,
}
use deltix_server.Versioning.Repos

-- Every commit with tables was imported once, each in the world that the one before left; the last
-- hash is that of the last of them. A commit without tables is passed over.
pub data Imported {W : Type 0} (cli : ImportCli W) (path branch : String)
    : (last : String) → W → List ImportedCommit → String → W → Type 0 where
  finished : {last : String} {w : W} → Imported cli path branch last w [] last w
  skipped :
      {last hash : String} {w w' : W} {c : ImportedCommit} {cs : List ImportedCommit}
      → has_tables c ≡ false
      → Imported cli path branch last w cs hash w'
      → Imported cli path branch last w (c ∷ cs) hash w'
  imported :
      {last next hash : String} {w w1 w' : W} {c : ImportedCommit} {cs : List ImportedCommit}
      → has_tables c ≡ true
      → cli.import_commit path branch c w ≡ (ok next, w1)
      → Imported cli path branch next w1 cs hash w'
      → Imported cli path branch last w (c ∷ cs) hash w'

-- The head of the branch as the reader answered it, when there is a base to compare with: absent,
-- empty, or the base itself.
abbrev pub Forward :
    {W : Type 0}
    → Option ((path branch : String) → Command W (Option String))
    → (path branch : String) → Option String
    → W
    → W
    → Type 0
Forward reader path branch none w w1 = w1 ≡ w
Forward none path branch (some base) w w1 = w1 ≡ w
Forward (some reader) path branch (some base) w w1 =
    (head : Option String) × (reader path branch w ≡ (ok head, w1))
    × ((truthy head ≡ none) ⊎ (truthy head ≡ some base))

module _ {W : Type 0} (cli : ImportCli W) where
  import_loop-Imported :
      (path branch last : String) (commits : List ImportedCommit) (w : W) {hash : String} {w' : W}
      → import_loop cli path branch last commits w ≡ (ok hash, w')
      → Imported cli path branch last w commits hash w'
  unfolding import_loop
  import_loop-Imported path branch last [] w {hash} {w'} h =
      subst (λ (o : String × W). Imported cli path branch last w [] o.0 o.1) {x = (last, w)}
        {y = (hash, w')} (ground (arith, h)) finished
  import_loop-Imported path branch last (c ∷ cs) w {hash} {w'} h =
      elim (Bool-cases (has_tables c)) [
        | inr none_in ↦
            skipped none_in
              (import_loop-Imported path branch last cs w (ground (arith, h, none_in)))
        | inl some_in ↦ elim (Result-cases (cli.import_commit path branch c w).0) [
          | inr (e, failed) ↦ absurd (ground (arith, h, some_in, failed))
          | inl (next, done) ↦ imported some_in (ground (arith, done)) (
              import_loop-Imported path branch next cs (cli.import_commit path branch c w).1
                (ground (arith, h, some_in, done)))
        ]
      ]

  check_head-Forward :
      (reader : Option ((path branch : String) → Command W (Option String))) (path branch : String)
      (base : Option String) (w : W)
      → (check_head reader path branch base w).0 ≡ ok tt
      → Forward reader path branch base w (check_head reader path branch base w).1
  check_head-Forward reader path branch none w h = refl
  check_head-Forward none path branch (some base) w h = refl
  check_head-Forward (some reader) path branch (some base) w h =
      elim (Result-cases (reader path branch w).0) [
        | inr (e, failed) ↦ absurd (ground (arith, h, failed))
        | inl (head, read) ↦ elim (Option-cases (truthy head)) [
          | inl absent ↦ (head, ground (arith, read, absent), inl absent)
          | inr (name, there) ↦ elim (Bool-cases (name == base)) [
            | inl same ↦ (
              head,
              ground (arith, read, there, same),
              inr (ground (arith, there, same, eq_iff name base)),
            )
            | inr other ↦ absurd (ground (arith, h, read, there, other))
          ]
        ]
      ]

  -- When a push of commits is answered with a hash, the repository is known, and every commit with
  -- tables was imported, once and in order; the hash is that of the last one. If the client named a
  -- base and the server has a reader of heads, the head of the branch was read first and was absent,
  -- empty, or that base; without a base or a reader nothing is asked of the head.
  pub import_commits_sound :
      (store : RepoStore) (repo_id : String) (commits : List ImportedCommit) (base : Option String)
      (branch : String) (w : W) {r : CommitImportResult} {w' : W}
      → import_commits cli store repo_id commits base branch w ≡ (ok r, w')
      → (repo : RepoRecord) × (w1 : W) × (Repos.get repo_id store ≡ some repo)
        × Forward cli.branch_head repo.dolt_path branch (truthy base) w w1
        × Imported cli repo.dolt_path branch "" w1 commits r.commit_hash w'
        × ((r.commit_hash == "") ≡ false)
        × (r.repo ≡ repo_id)
  unfolding import_commits
  import_commits_sound store repo_id commits base branch w {r} {w'} h =
      elim (Option-cases (Repos.get repo_id store)) [
        | inl unknown ↦ absurd (ground (arith, h, unknown))
        | inr (repo, known) ↦ elim (List-cases commits) [
          | inl empty ↦ absurd (ground (arith, h, known, empty))
          | inr (c, cs, some_given) ↦
              let p = repo.dolt_path in
              let check = check_head cli.branch_head p branch (truthy base) in
              elim (Result-cases (check w).0) [
                | inr (e, stale) ↦ absurd (ground (arith, h, known, some_given, stale))
                | inl (u, passed) ↦
                    let w1 = (check w).1 in
                    let loop = import_loop cli p branch "" commits w1 in
                    elim (Result-cases loop.0) [
                      | inr (e, failed) ↦
                          absurd (ground (arith, h, known, some_given, passed, failed))
                      | inl (hash, done) ↦ elim (Bool-cases (hash == "")) [
                        | inl none_in ↦
                            absurd (ground (arith, h, known, some_given, passed, done, none_in))
                        | inr real ↦
                            let same : r.commit_hash ≡ hash =
                              ground (arith, h, known, some_given, passed, done, real) in
                            (
                              repo,
                              w1,
                              known,
                              check_head-Forward cli.branch_head p branch (truthy base) w passed,
                              import_loop-Imported p branch "" commits w1
                                  (ground (arith, h, known, some_given, passed, done, real)),
                              ground (arith, same, real),
                              ground (arith, h, known, some_given, passed, done, real),
                            )
                      ]
                    ]
              ]
        ]
      ]

  -- A push whose base is not the head of the branch is refused before any commit is imported: the
  -- world is the one that the reading of the head left.
  pub import_commits_stale :
      (store : RepoStore) (repo_id : String) (c : ImportedCommit) (cs : List ImportedCommit)
      (base : Option String) (branch : String) (w : W) {repo : RepoRecord}
      {reader : (path branch : String) → Command W (Option String)} {head : Option String}
      {expected actual : String} {w1 : W}
      → Repos.get repo_id store ≡ some repo
      → cli.branch_head ≡ some reader
      → truthy base ≡ some expected
      → reader repo.dolt_path branch w ≡ (ok head, w1)
      → truthy head ≡ some actual
      → (actual == expected) ≡ false
      → import_commits cli store repo_id (c ∷ cs) base branch w
        ≡ (err (non_fast_forward expected actual), w1)
  unfolding import_commits
  import_commits_stale store repo_id c cs base branch w known wired named read there other =
      ground (arith, known, wired, named, read, there, other)
