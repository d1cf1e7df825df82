-- ===== src/Versioning/Preferences/Laws.antt =====
-- What a stored preference promises.
use deltix_server.Common.{
  ℕ, if◌then◌else◌, ◌≡◌, refl, ap, sym, subst, ◌∙◌, ◌↔◌, ◌⊎◌, inl, inr, true, false, String, List,
  [], ◌∷◌, none, some, ◌==◌, string_eq, ok, err, contains, arith, eq_iff, List-cases, Bool-cases,
  Option-cases, Result-cases,
}
use deltix_server.Transfer.Types.{SyncMode}
use deltix_server.Table.Keys.{
  lookup, lookup-insert, lookup-update, lookup-key, insert-some, insert-none,
}
use deltix_server.Versioning.Names.{valid_repo_id}
use deltix_server.Versioning.Types.{RepoRecord, RepoSyncPreference, sync_preference_conflict}
use deltix_server.Versioning.Repos.{
  RepoStore, get_sync_preference, upsert_sync_preference, preference_key, merge_preference,
}
use deltix_server.Versioning.Closure.{ForeignKeyEdge}
use deltix_server.Versioning.Closure.Reachable.{Reach}
use deltix_server.Versioning.Preferences.{
  EdgeReader, SyncPlanRequest, normalize_tables, build_plan, edges_for,
  assert_no_excluded_dependencies, require_repo, get, upsert,
}
use deltix_server.Versioning.Preferences.Plan.{
  IsClosed, missing, missing_iff, missing-nil_iff, normalize_tables-Named,
}

abbrev pub preference : ℕ → String → SyncMode → List String → RepoSyncPreference
preference now repo_id mode requested = record {
  repo_id = repo_id;
  mode = mode;
  requested_tables = some requested;
  created_at = now;
  updated_at = now;
}

module _ (read : EdgeReader) (now : ℕ) (repo_id : String) (request : SyncPlanRequest)
    (s : RepoStore) where
  upsert_known :
      {repo : RepoRecord} {requested : List String} {edges : List ForeignKeyEdge}
      → require_repo repo_id s ≡ ok repo
      → normalize_tables request.tables ≡ ok (some requested)
      → read repo.dolt_path ≡ ok edges
      → missing requested edges ≡ []
      → upsert read now repo_id request s ≡ (
        ok (preference now repo_id request.mode requested),
        upsert_sync_preference (preference now repo_id request.mode requested) s,
      )
  unfolding upsert build_plan edges_for assert_no_excluded_dependencies
  upsert_known known tables keys clean = ground (arith, known, tables, keys, clean)

  upsert_conflict :
      {repo : RepoRecord} {requested : List String} {edges : List ForeignKeyEdge} {t : String}
      {ts : List String}
      → require_repo repo_id s ≡ ok repo
      → normalize_tables request.tables ≡ ok (some requested)
      → read repo.dolt_path ≡ ok edges
      → missing requested edges ≡ t ∷ ts
      → upsert read now repo_id request s ≡ (err (sync_preference_conflict (t ∷ ts)), s)
  unfolding upsert build_plan edges_for assert_no_excluded_dependencies
  upsert_conflict known tables keys clean = ground (arith, known, tables, keys, clean)

  -- For a known repository, a request whose tables are normalized to a list of valid names, and
  -- foreign keys that could be read: the preference is stored when the requested tables are closed
  -- under the foreign keys; when they are not, the error names exactly the tables that foreign keys
  -- lead to and that were not requested, and nothing is stored.
  pub upsert_exact :
      {repo : RepoRecord} {requested : List String} {edges : List ForeignKeyEdge}
      → require_repo repo_id s ≡ ok repo
      → normalize_tables request.tables ≡ ok (some requested)
      → read repo.dolt_path ≡ ok edges
      → (IsClosed edges requested
          × (upsert read now repo_id request s ≡ (
            ok (preference now repo_id request.mode requested),
            upsert_sync_preference (preference now repo_id request.mode requested) s,
          )))
        ⊎ ((absent : List String) × (upsert read now repo_id request s
              ≡ (err (sync_preference_conflict absent), s))
            × ((v : String)
                → (contains absent v ≡ true)
                  ↔ (∥ Reach edges requested v ∥₁ × (contains requested v ≡ false)))
            × ¬ IsClosed edges requested)
  upsert_exact {repo} {requested} {edges} known tables keys =
      let clean_iff =
        missing-nil_iff requested edges (normalize_tables-Named request.tables tables) in
      elim (List-cases (missing requested edges)) [
        | inl clean ↦ inl (clean_iff.0 clean, upsert_known known tables keys clean)
        | inr (t, ts, e) ↦ inr (
          t ∷ ts,
          upsert_conflict known tables keys e,
          λ v.
              subst
                (λ absent.
                  (contains absent v ≡ true)
                  ↔ (∥ Reach edges requested v ∥₁ × (contains requested v ≡ false)))
                e (missing_iff requested edges v),
          λ h. nil_cons (sym (clean_iff.1 h) ∙ e),
        )
      ]
    where
      nil_cons : {t : String} {ts : List String} → ¬ ([] ≡ t ∷ ts)
      nil_cons h = cc (h)

  upsert-ok :
      {p : RepoSyncPreference} {s' : RepoStore}
      → upsert read now repo_id request s ≡ (ok p, s')
      → (s' ≡ upsert_sync_preference p s)
        × (p.repo_id ≡ repo_id)
        × (p.mode ≡ request.mode)
        × (p.updated_at ≡ now)
        × (p.created_at ≡ now)
        × ((repo : RepoRecord) × (require_repo repo_id s ≡ ok repo))
  unfolding upsert build_plan
  upsert-ok {p} {s'} h = elim (Result-cases (require_repo repo_id s)) [
    | inr (e, bad) ↦ absurd (ground (arith, h, bad))
    | inl (repo, known) ↦ elim (Result-cases (normalize_tables request.tables)) [
      | inr (e, bad) ↦ absurd (ground (arith, h, known, bad))
      | inl (tables, normal) ↦ elim (Result-cases (edges_for read repo tables)) [
        | inr (e, bad) ↦ absurd (ground (arith, h, known, normal, bad))
        | inl (edges, keys) ↦
            elim (Result-cases
              (assert_no_excluded_dependencies (build_plan request.mode tables edges))) [
                | inr (e, bad) ↦ absurd (ground (arith, h, known, normal, keys, bad))
                | inl (u, fine) ↦ elim (Option-cases tables) [
                  | inl nothing ↦ ground (arith, h, known, normal, keys, fine, nothing)
                  | inr (ts, there) ↦ ground (arith, h, known, normal, keys, fine, there)
                ]
              ]
      ]
    ]
  ]

get-upsert_sync_preference :
    (p : RepoSyncPreference) (s : RepoStore) (repo_id : String)
    → get_sync_preference repo_id (upsert_sync_preference p s) ≡ (
        if p.repo_id == repo_id
        then elim (get_sync_preference p.repo_id s) [
          | none ↦ some p
          | some old ↦ some (merge_preference p old)
        ]
        else get_sync_preference repo_id s)
unfolding get_sync_preference upsert_sync_preference
get-upsert_sync_preference p s repo_id =
    elim (Option-cases (lookup preference_key p.repo_id s.preferences)) [
      | inl free ↦
          let e = insert-some preference_key p s.preferences free in
          ground (arith, free, e, lookup-insert preference_key p s.preferences repo_id e)
      | inr (old, there) ↦
          let e = insert-none preference_key p s.preferences there in
          let changed =
            lookup-update preference_key (λ r. r.repo_id == p.repo_id) (merge_preference p)
              (λ _. refl) repo_id s.preferences in
          elim (Option-cases (lookup preference_key repo_id s.preferences)) [
            | inl absent ↦ elim (Bool-cases (p.repo_id == repo_id)) [
              | inl same ↦
                  let q =
                    ap (λ k. lookup preference_key k s.preferences)
                      ((eq_iff p.repo_id repo_id).0 same) in
                  absurd (cc (sym there ∙ q ∙ absent))
              | inr other ↦ ground (arith, e, changed, absent, other)
            ]
            | inr (row, found) ↦ elim (Bool-cases (p.repo_id == repo_id)) [
              | inl same ↦
                  let q =
                    ap (λ k. lookup preference_key k s.preferences)
                      ((eq_iff p.repo_id repo_id).0 same) in
                  let key = lookup-key preference_key repo_id s.preferences found in
                  ground (
                    arith,
                    e,
                    changed,
                    found,
                    same,
                    there,
                    sym q ∙ there,
                    key,
                    eq_iff row.repo_id p.repo_id,
                    eq_iff p.repo_id repo_id,
                  )
              | inr other ↦
                  let key = lookup-key preference_key repo_id s.preferences found in
                  ground (
                    arith,
                    e,
                    changed,
                    found,
                    other,
                    key,
                    eq_iff row.repo_id p.repo_id,
                    eq_iff p.repo_id repo_id,
                  )
            ]
          ]
    ]

-- What a second reader of the preferences then sees.
pub record Stored (p : RepoSyncPreference) (repo_id : String) (s s' : RepoStore)
    (r : RepoSyncPreference) : Type 0 where
  pub found : get repo_id s' ≡ ok (some r)
  pub mode : r.mode ≡ p.mode
  pub tables : r.requested_tables ≡ p.requested_tables
  pub updated : r.updated_at ≡ p.updated_at
  pub created :
      r.created_at
      ≡ elim (get_sync_preference repo_id s) [ none ↦ p.created_at | some old ↦ old.created_at ]
  pub others : (other : String) → (repo_id == other) ≡ false → get other s' ≡ get other s
  pub repos : s'.repos ≡ s.repos

-- A preference that was stored is read back with its mode, tables and time, and with the time of
-- the first preference of the repository as its creation; no other repository's preference changes.
pub upsert_then_get :
    (read : EdgeReader) (now : ℕ) (repo_id : String) (request : SyncPlanRequest) (s : RepoStore)
    {p : RepoSyncPreference} {s' : RepoStore}
    → upsert read now repo_id request s ≡ (ok p, s')
    → (r : RepoSyncPreference) × Stored p repo_id s s' r × (p.mode ≡ request.mode)
unfolding get require_repo upsert_sync_preference
upsert_then_get read now repo_id request s {p} {s'} h =
    let (next, key, mode, updated, created, (repo, known)) =
      upsert-ok read now repo_id request s h in
    let valid : valid_repo_id repo_id ≡ true = ground (arith, known) in
    let seen = λ (k : String). get-upsert_sync_preference p s k in
    let same = (eq_iff p.repo_id repo_id).1 key in
    let old = ap (λ k. get_sync_preference k s) key in
    let others = λ (k : String) (other : (repo_id == k) ≡ false). ap (λ q. q == k) key ∙ other in
    elim (Option-cases (get_sync_preference repo_id s)) [
      | inl absent ↦ (
        p,
        record {
          found = ground (
            arith,
            valid,
            next,
            seen repo_id,
            same,
            old,
            absent,
            ap (get_sync_preference repo_id) next,
          );
          mode = refl;
          tables = refl;
          updated = refl;
          created = ground (arith, absent);
          others =
              λ k other. ground (arith, seen k, others k other, ap (get_sync_preference k) next);
          repos = ground (arith, next);
        },
        mode,
      )
      | inr (row, there) ↦ (
        merge_preference p row,
        record {
          found = ground (
            arith,
            valid,
            next,
            seen repo_id,
            same,
            old,
            there,
            ap (get_sync_preference repo_id) next,
          );
          mode = refl;
          tables = refl;
          updated = refl;
          created = ground (arith, there);
          others =
              λ k other. ground (arith, seen k, others k other, ap (get_sync_preference k) next);
          repos = ground (arith, next);
        },
        mode,
      )
    ]
