-- ===== src/Versioning/Closure.antt =====
-- `computeClosure` of contexts/versioning/sync-preference.service.ts: the tables that the requested
-- ones need by foreign keys. The `while` loop is `run`, and its fuel is a bound on its rounds.
pub mod Scan
pub mod Reachable
use deltix_server.Common.{
  ℕ, zero, suc, ◌+◌, Bool, true, false, String, List, [], ◌∷◌, ◌++◌, ◌==◌, if◌then◌else◌, string_eq,
  length, contains,
}
use deltix_server.Versioning.Names.{unique_sorted, sort}

pub record ForeignKeyEdge : Type 0 where
  pub table_name : String
  pub referenced_table_name : String
  pub constraint_name : String

-- A `Map` from names to lists, read by `get(name) ?? []`.
abbrev pub TableMap : Type 0
TableMap = String → List String

abbrev pub set_table : TableMap → String → List String → TableMap
set_table m name value = λ k. if k == name then value else m k

-- The loop that fills `byTable`.
unfoldable pub by_table : List ForeignKeyEdge → TableMap → TableMap
by_table [] m = m
by_table (e ∷ edges) m =
    by_table edges
      (set_table m e.table_name (unique_sorted (m e.table_name ++ e.referenced_table_name ∷ [])))

-- The `Set` of resolved tables, in the order of insertion, and the queue.
pub record Search : Type 0 where
  pub resolved : List String
  pub queue : List String

-- The body of the inner loop.
abbrev pub offer : Search → String → Search
offer s dependency =
    if contains s.resolved dependency
    then s
    else record { resolved = s.resolved ++ dependency ∷ []; queue = s.queue ++ dependency ∷ [] }

unfoldable pub scan : Search → List String → Search
scan s [] = s
scan s (dependency ∷ rest) = scan (offer s dependency) rest

-- One round, after `shift` took `table` off the queue.
unfoldable pub expand : TableMap → Search → String → List String → Search
expand m s table rest =
    if table == "" then record s { queue = rest } else scan (record s { queue = rest }) (m table)

unfoldable pub run : TableMap → ℕ → Search → Search
run m zero s = s
run m (suc fuel) s = elim s.queue [ [] ↦ s | table ∷ rest ↦ run m fuel (expand m s table rest) ]

unfoldable pub requested_twice : List String → Search
requested_twice requested = record { resolved = requested; queue = requested }

unfoldable pub search_closure : List String → List ForeignKeyEdge → Search
search_closure requested edges =
    run (by_table edges (λ _. [])) (length requested + length edges) (requested_twice requested)

unfoldable pub compute_closure : List String → List ForeignKeyEdge → List String
compute_closure requested edges = let s = search_closure requested edges in sort s.resolved
