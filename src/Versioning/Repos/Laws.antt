-- ===== src/Versioning/Repos/Laws.antt =====
-- What a provisioning stores, and what every row of `repos` meets.
use deltix_server.Common.{
  ℕ, ◌≡◌, refl, inl, inr, true, false, String, [], ◌∷◌, ◌++◌, none, some, ◌==◌, string_eq, Result,
  ok, err, arith, eq_iff, Bool-cases, Option-cases,
}
use deltix_server.Table.Keys.{lookup-insert, insert-some}
use deltix_server.Versioning.Names.{valid_repo_id}
use deltix_server.Versioning.Types.{
  RepoRecord, VersioningError, invalid_repo_id, repo_already_provisioned, repo_provisioning_failed,
}
use deltix_server.Versioning.Repos.{RepoStore, repo_key, Provisioning, provision, create, get}

-- Why a provisioning is refused.
pub data Unprovisioned (p : Provisioning) (repo_id : String) (s : RepoStore)
    : VersioningError → Type 0 where
  invalid : valid_repo_id repo_id ≡ false → Unprovisioned p repo_id s invalid_repo_id
  known :
      {r : RepoRecord}
      → valid_repo_id repo_id ≡ true
      → get repo_id s ≡ some r
      → Unprovisioned p repo_id s repo_already_provisioned
  no_init :
      {message : String}
      → valid_repo_id repo_id ≡ true
      → get repo_id s ≡ none
      → p.run_dolt_init (p.join p.dolt_repos_root_path repo_id) ≡ some message
      → Unprovisioned p repo_id s (repo_provisioning_failed message)

pub record Provisioned (p : Provisioning) (repo_id created_by : String) (s s' : RepoStore)
    (r : RepoRecord) : Type 0 where
  pub fresh : get repo_id s ≡ none
  pub initialised : p.run_dolt_init (p.join p.dolt_repos_root_path repo_id) ≡ none
  pub stored : get repo_id s' ≡ some r
  pub others : (other : String) → (repo_id == other) ≡ false → get other s' ≡ get other s
  pub path : r.dolt_path ≡ p.join p.dolt_repos_root_path repo_id
  pub creator : r.created_by ≡ created_by
  pub preferences : s'.preferences ≡ s.preferences

abbrev pub Outcome :
    Provisioning
    → (repo_id created_by : String) → RepoStore
    → Result VersioningError RepoRecord × RepoStore
    → Type 0
Outcome p repo_id created_by s (ok r, s') =
    (valid_repo_id repo_id ≡ true) × Provisioned p repo_id created_by s s' r
Outcome p repo_id created_by s (err e, s') = (s' ≡ s) × Unprovisioned p repo_id s e

abbrev made : Provisioning → ℕ → (repo_id created_by : String) → RepoRecord
made p now repo_id created_by = record {
  repo_id = repo_id;
  dolt_path = p.join p.dolt_repos_root_path repo_id;
  created_at = now;
  created_by = created_by;
}

module _ (p : Provisioning) (now : ℕ) (repo_id created_by : String) (s : RepoStore) where
  refused_invalid :
      valid_repo_id repo_id ≡ false
      → provision p now repo_id created_by s ≡ (err invalid_repo_id, s)
  unfolding provision
  refused_invalid bad = ground (arith, bad)

  refused_known :
      {r : RepoRecord}
      → valid_repo_id repo_id ≡ true
      → get repo_id s ≡ some r
      → provision p now repo_id created_by s ≡ (err repo_already_provisioned, s)
  unfolding provision
  refused_known valid there = ground (arith, valid, there)

  refused_init :
      {message : String}
      → valid_repo_id repo_id ≡ true
      → get repo_id s ≡ none
      → p.run_dolt_init (p.join p.dolt_repos_root_path repo_id) ≡ some message
      → provision p now repo_id created_by s ≡ (err (repo_provisioning_failed message), s)
  unfolding provision
  refused_init valid free failed = ground (arith, valid, free, failed)

  accepted :
      valid_repo_id repo_id ≡ true
      → get repo_id s ≡ none
      → p.run_dolt_init (p.join p.dolt_repos_root_path repo_id) ≡ none
      → provision p now repo_id created_by s ≡ (
        ok (made p now repo_id created_by),
        record s { repos = s.repos ++ made p now repo_id created_by ∷ [] },
      )
  unfolding provision create get
  accepted valid free fine =
      ground
        (arith, valid, free, fine, insert-some repo_key (made p now repo_id created_by) s.repos)

  added :
      get repo_id s ≡ none
      → p.run_dolt_init (p.join p.dolt_repos_root_path repo_id) ≡ none
      → Provisioned p repo_id created_by s
          (record s { repos = s.repos ++ made p now repo_id created_by ∷ [] })
          (made p now repo_id created_by)
  unfolding get
  added free fine =
      let r = made p now repo_id created_by in
      let found =
        λ (k : String). lookup-insert repo_key r s.repos k (insert-some repo_key r s.repos free) in
      record {
        fresh = free;
        initialised = fine;
        stored = ground (arith, found repo_id, eq_iff repo_id repo_id);
        others = λ k other. ground (arith, found k, other);
        path = refl;
        creator = refl;
        preferences = refl;
      }

  -- Provisioning stores the repository under its path, with the creator's name, and changes no
  -- other row; or it changes nothing, and the error says whether the name is invalid, the
  -- repository is known, or `dolt init` failed.
  pub provision-Outcome : Outcome p repo_id created_by s (provision p now repo_id created_by s)
  provision-Outcome = elim (Bool-cases (valid_repo_id repo_id)) [
    | inr bad ↦ rw (refused_invalid bad) (refl, invalid bad)
    | inl valid ↦ elim (Option-cases (get repo_id s)) [
      | inr (r, there) ↦ rw (refused_known valid there) (refl, known valid there)
      | inl free ↦ elim (Option-cases (p.run_dolt_init (p.join p.dolt_repos_root_path repo_id))) [
        | inr (message, failed) ↦
            rw (refused_init valid free failed) (refl, no_init valid free failed)
        | inl fine ↦ rw (accepted valid free fine) (valid, added free fine)
      ]
    ]
  ]
