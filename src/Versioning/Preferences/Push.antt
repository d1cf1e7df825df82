-- ===== src/Versioning/Preferences/Push.antt =====
-- What a validated push promises.
use mathlib.Core.Option
use deltix_server.Common.{
  ◌≡◌, refl, ap, sym, subst, ◌∙◌, ◌⊎◌, inl, inr, Bool, false, not, String, List, [], ◌∷◌, Option,
  none, some, string_eq, ok, all, contains, contains-filter, arith, List-cases, Bool-cases,
  Option-cases, Result-cases,
}
use deltix_server.Transfer.Types.{SyncMode, schema_and_data, PushTicketSyncOptions}
use deltix_server.Versioning.Names.{valid_table, unique_sorted, contains-unique_sorted}
use deltix_server.Versioning.Types.{RepoRecord, RepoSyncPreference}
use deltix_server.Versioning.Repos.{RepoStore, get_sync_preference}
use deltix_server.Versioning.Closure.{ForeignKeyEdge, compute_closure}
use deltix_server.Versioning.Closure.Reachable.{here, compute_closure_iff}
use deltix_server.Versioning.Preferences.{
  EdgeReader, PushSyncValidationResult, normalize_tables, trimmed, build_plan, edges_for,
  assert_no_excluded_dependencies, require_repo, validate_push_options, chosen_tables, chosen_mode,
  chosen_dry_run,
}
use deltix_server.Versioning.Preferences.Plan.{
  IsClosed, missing, missing-nil_iff, normalize_tables-Named,
}

-- What is used: the override if there is one, else what is stored, else the default.
pub data Chosen {ℓ} {A : Type ℓ} : (override stored : Option A) → (default : A) → A → Type ℓ where
  overridden : {a default : A} {stored : Option A} → Chosen (some a) stored default a
  kept : {a default : A} → Chosen none (some a) default a
  defaulted : {default : A} → Chosen none none default default

get_or-Chosen {ℓ} :
    {A : Type ℓ} (override stored : Option A) (default : A)
    → Chosen override stored default (Option.get_or override (Option.get_or stored default))
get_or-Chosen (some a) stored default = overridden
get_or-Chosen none (some a) default = kept
get_or-Chosen none none default = defaulted

-- The fields of a ticket's options, where there are options.
abbrev pub given_tables : Option PushTicketSyncOptions → Option (Option (List String))
given_tables none = none
given_tables (some o) = o.tables

abbrev pub given_mode : Option PushTicketSyncOptions → Option SyncMode
given_mode none = none
given_mode (some o) = o.mode

abbrev pub given_dry_run : Option PushTicketSyncOptions → Option Bool
given_dry_run none = none
given_dry_run (some o) = o.dry_run

abbrev pub TablesChosen :
    Option PushTicketSyncOptions → Option RepoSyncPreference → Option (List String) → Type 0
TablesChosen overrides stored tables =
    Chosen (given_tables overrides) (Option.map (λ p. p.requested_tables) stored) none tables

abbrev pub ModeChosen : Option PushTicketSyncOptions → Option RepoSyncPreference → SyncMode → Type 0
ModeChosen overrides stored mode =
    Chosen (given_mode overrides) (Option.map (λ p. p.mode) stored) schema_and_data mode

chosen_tables-Chosen :
    (o : Option PushTicketSyncOptions) (p : Option RepoSyncPreference)
    → TablesChosen o p (chosen_tables o p)
chosen_tables-Chosen none none = defaulted
chosen_tables-Chosen none (some p) = kept
chosen_tables-Chosen (some o) none = get_or-Chosen o.tables none none
chosen_tables-Chosen (some o) (some p) = get_or-Chosen o.tables (some p.requested_tables) none

chosen_mode-Chosen :
    (o : Option PushTicketSyncOptions) (p : Option RepoSyncPreference)
    → ModeChosen o p (chosen_mode o p)
chosen_mode-Chosen none none = defaulted
chosen_mode-Chosen none (some p) = kept
chosen_mode-Chosen (some o) none = get_or-Chosen o.mode none schema_and_data
chosen_mode-Chosen (some o) (some p) = get_or-Chosen o.mode (some p.mode) schema_and_data

chosen_dry_run-Chosen :
    (o : Option PushTicketSyncOptions) → Chosen (given_dry_run o) none false (chosen_dry_run o)
chosen_dry_run-Chosen none = defaulted
chosen_dry_run-Chosen (some o) = get_or-Chosen o.dry_run none false

-- The names of a list of tables, trimmed, without the empty ones.
abbrev pub names : Option (List String) → List String
names none = []
names (some tables) = trimmed tables

normalize_tables-names :
    (tables : Option (List String)) {requested : List String}
    → normalize_tables tables ≡ ok (some requested)
    → (t : String) → contains requested t ≡ contains (names tables) t
unfolding normalize_tables
normalize_tables-names none h t = absurd (ground (arith, h))
normalize_tables-names (some tables) {requested} h t = elim (List-cases (trimmed tables)) [
  | inl empty ↦ absurd (ground (arith, h, empty))
  | inr (u, us, e) ↦ elim (Bool-cases (all valid_table (u ∷ us))) [
    | inr bad ↦ absurd (ground (arith, h, e, bad))
    | inl good ↦
        let same : requested ≡ unique_sorted (u ∷ us) = ground (arith, h, e, good) in
        ap (λ r. contains r t) same
        ∙ contains-unique_sorted (u ∷ us) t
        ∙ ap (λ r. contains r t) (sym e)
  ]
]

normalize_tables-none :
    (tables : Option (List String)) → normalize_tables tables ≡ ok none → names tables ≡ []
unfolding normalize_tables
normalize_tables-none none h = refl
normalize_tables-none (some tables) h = elim (List-cases (trimmed tables)) [
  | inl empty ↦ empty
  | inr (u, us, e) ↦ absurd (ground (arith, h, e))
]

-- A validated push: which tables, mode and kind of run it uses, and that it adds no table.
pub record Validated (edges : List ForeignKeyEdge) (overrides : Option PushTicketSyncOptions)
    (stored : Option RepoSyncPreference) (v : PushSyncValidationResult) : Type 0 where
  pub wanted : Option (List String)
  pub chosen : TablesChosen overrides stored wanted
  pub mode : ModeChosen overrides stored v.mode
  pub dry_run : Chosen (given_dry_run overrides) none false v.dry_run
  pub adds_none : v.auto_included_tables ≡ []
  pub tables :
      (v.requested_tables ≡ none) × (v.resolved_tables ≡ none) × (names wanted ≡ [])
      ⊎ ((requested : List String) × (resolved : List String) × (v.requested_tables
            ≡ some requested)
          × (v.resolved_tables ≡ some resolved)
          × ((t : String) → contains requested t ≡ contains (names wanted) t)
          × IsClosed edges requested
          × ((t : String) → contains resolved t ≡ contains requested t))

closure_adds_none :
    (requested : List String) (edges : List ForeignKeyEdge)
    → missing requested edges ≡ []
    → (t : String) → contains (compute_closure requested edges) t ≡ contains requested t
closure_adds_none requested edges e t =
    let both =
      contains-filter (λ table. not (contains requested table)) (compute_closure requested edges)
        t in
    let included = (compute_closure_iff requested edges t).1 in
    let none_left = ap (λ ts. contains ts t) e in
    elim (Bool-cases (contains requested t)) [
      | inl there ↦ included ∣ here there ∣₁ ∙ sym there
      | inr new ↦ ground (arith, both, none_left, new)
    ]

-- When a push's options pass, for a known repository whose foreign keys could be read: the tables,
-- the mode and whether it is a dry run are those of the ticket's options, where these leave one out
-- the tables or mode of the stored preference, and else every table, schema and data, and a real
-- run. A list without names stands for every table, and none is then resolved; otherwise the
-- pushed tables are the names of the list, no foreign key leads out of them, and none is added. The
-- stored preferences stay as they were.
pub validate_push_options_sound :
    (read : EdgeReader) (repo_id : String) (overrides : Option PushTicketSyncOptions)
    (s : RepoStore) {repo : RepoRecord} {edges : List ForeignKeyEdge} {v : PushSyncValidationResult}
    {s' : RepoStore}
    → require_repo repo_id s ≡ ok repo
    → read repo.dolt_path ≡ ok edges
    → validate_push_options read repo_id overrides s ≡ (ok v, s')
    → Validated edges overrides (get_sync_preference repo_id s) v × (s' ≡ s)
unfolding validate_push_options build_plan assert_no_excluded_dependencies edges_for
validate_push_options_sound read repo_id overrides s {repo} {edges} {v} {s'} known keys h =
    let stored = get_sync_preference repo_id s in
    let wanted = chosen_tables overrides stored in
    elim (Result-cases (normalize_tables wanted)) [
      | inr (e, bad) ↦ absurd (ground (arith, h, known, bad))
      | inl (tables, normal) ↦ elim (Option-cases tables) [
        | inl nothing ↦
            let mode : chosen_mode overrides stored ≡ v.mode =
              ground (arith, h, known, normal, nothing) in
            let dry : chosen_dry_run overrides ≡ v.dry_run =
              ground (arith, h, known, normal, nothing) in
            (
              record {
                wanted = wanted;
                chosen = chosen_tables-Chosen overrides stored;
                mode =
                    subst (ModeChosen overrides stored) mode (chosen_mode-Chosen overrides stored);
                dry_run =
                    subst (Chosen (given_dry_run overrides) none false) dry
                      (chosen_dry_run-Chosen overrides);
                adds_none = ground (arith, h, known, normal, nothing);
                tables = inl (
                  ground (arith, h, known, normal, nothing),
                  ground (arith, h, known, normal, nothing),
                  normalize_tables-none wanted (normal ∙ ap ok nothing),
                );
              },
              ground (arith, h, known, normal, nothing),
            )
        | inr (requested, there) ↦ elim (List-cases (missing requested edges)) [
          | inl clean ↦
              let exact = normal ∙ ap ok there in
              let mode : chosen_mode overrides stored ≡ v.mode =
                ground (arith, h, known, normal, keys, there, clean) in
              let dry : chosen_dry_run overrides ≡ v.dry_run =
                ground (arith, h, known, normal, keys, there, clean) in
              (
                record {
                  wanted = wanted;
                  chosen = chosen_tables-Chosen overrides stored;
                  mode =
                      subst (ModeChosen overrides stored) mode
                        (chosen_mode-Chosen overrides stored);
                  dry_run =
                      subst (Chosen (given_dry_run overrides) none false) dry
                        (chosen_dry_run-Chosen overrides);
                  adds_none = ground (arith, h, known, normal, keys, there, clean);
                  tables = inr (
                    requested,
                    compute_closure requested edges,
                    ground (arith, h, known, normal, keys, there, clean),
                    ground (arith, h, known, normal, keys, there, clean),
                    normalize_tables-names wanted exact,
                    (missing-nil_iff requested edges (normalize_tables-Named wanted exact)).0 clean,
                    closure_adds_none requested edges clean,
                  );
                },
                ground (arith, h, known, normal, keys, there, clean),
              )
          | inr (t, ts, e) ↦ absurd (ground (arith, h, known, normal, keys, there, e))
        ]
      ]
    ]
