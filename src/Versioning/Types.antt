-- ===== src/Versioning/Types.antt =====
-- contexts/versioning/types.ts and errors.ts: the records and errors of the services, and a method as
-- an action on a state, which keeps what it wrote when the method rejects.
use deltix_server.Common.{ℕ, Bool, String, List, Option, if◌then◌else◌, Result, ok, err}
use deltix_server.Transfer.Types.{SyncMode}

pub record RepoRecord : Type 0 where
  pub repo_id : String
  pub dolt_path : String
  pub created_at : ℕ
  pub created_by : String

-- A row of `repo_sync_preferences`: the key and a `RepoSyncPreferenceSummary`.
pub record RepoSyncPreference : Type 0 where
  pub repo_id : String
  pub mode : SyncMode
  pub requested_tables : Option (List String)
  pub created_at : ℕ
  pub updated_at : ℕ

pub record MergeConflictTable : Type 0 where
  pub table : String
  pub count : ℕ

pub data VersioningError : Type 0 where
  invalid_repo_id repo_already_provisioned repo_not_found constraint_violation : VersioningError
  invalid_branch_name protected_branch : VersioningError
  invalid_commit_reference invalid_pagination_limit : VersioningError
  repo_provisioning_failed branch_already_exists branch_not_found : String → VersioningError
  commit_failed commit_import_error : String → VersioningError
  sync_preference_conflict : List String → VersioningError
  non_fast_forward : (base current_head : String) → VersioningError
  merge_conflict :
      List MergeConflictTable → (source_branch target_branch : String) → VersioningError
  -- Any other error that a command throws, with its message.
  other_error : String → VersioningError

abbrev pub Action : Type 0 → Type 0 → Type 0
Action S A = S → Result VersioningError A × S

module _ {S A : Type 0} where
  abbrev pub pure : A → Action S A
  pure a s = (ok a, s)

  abbrev pub raise : VersioningError → Action S A
  raise e s = (err e, s)

  -- A part that only reads the state.
  abbrev pub lift : (S → Result VersioningError A) → Action S A
  lift f s = (f s, s)

module _ {S : Type 0} where
  infixl 5 ◌>>=◌ ◌>>◌
  abbrev pub ◌>>=◌ : {A B : Type 0} → Action S A → (A → Action S B) → Action S B
  ◌>>=◌ m f s = let (r, s') = m s in elim r [ ok a ↦ f a s' | err e ↦ (err e, s') ]

  abbrev pub ◌>>◌ : {A B : Type 0} → Action S A → Action S B → Action S B
  m >> k = m >>= λ _. k

  -- `if (!test) throw e`
  abbrev pub raise_unless : Bool → VersioningError → Action S (Unit {0})
  raise_unless test e s = (if test then ok tt else err e, s)
