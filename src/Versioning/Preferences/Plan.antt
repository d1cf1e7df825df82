-- ===== src/Versioning/Preferences/Plan.antt =====
-- When a plan adds tables, and which.
use mathlib.Core.Logic.{∥∥₁_elim}
use mathlib.Core.Bool.{So-prop}
use deltix_server.Common.{
  ◌≡◌, ap, sym, ◌∙◌, ◌↔◌, inl, inr, true, false, not, String, List, [], ◌∷◌, Option, none, some,
  ◌==◌, string_eq, ok, all, filter, contains, contains-filter, arith, eq_iff, Bool-cases,
  List-cases,
}
use deltix_server.Versioning.Names.{valid_table, codes, unique_sorted, contains-unique_sorted}
use deltix_server.Versioning.Closure.{ForeignKeyEdge, compute_closure}
use deltix_server.Versioning.Closure.Scan.{refers}
use deltix_server.Versioning.Closure.Reachable.{Reach, here, follow, compute_closure_iff}
use deltix_server.Versioning.Preferences.{normalize_tables, trimmed}

-- Every foreign key of a table of the set stays in the set.
abbrev pub IsClosed : List ForeignKeyEdge → List String → Type 0
IsClosed edges tables =
    (u v : String) → contains tables u ≡ true → refers edges u v ≡ true → contains tables v ≡ true

abbrev pub missing : List String → List ForeignKeyEdge → List String
missing requested edges =
    filter (λ table. not (contains requested table)) (compute_closure requested edges)

abbrev pub Named : List String → Type 0
Named requested = (u : String) → contains requested u ≡ true → (u == "") ≡ false

module _ (requested : List String) (edges : List ForeignKeyEdge) where
  -- Exactly the tables that foreign keys lead to and that were not requested.
  pub missing_iff :
      (v : String)
      → (contains (missing requested edges) v ≡ true)
        ↔ (∥ Reach edges requested v ∥₁ × (contains requested v ≡ false))
  missing_iff v =
      let both =
        contains-filter (λ table. not (contains requested table)) (compute_closure requested edges)
          v in
      let (sound, full) = compute_closure_iff requested edges v in
      (
        λ m. (sound (ground (arith, both, m)), ground (arith, both, m)),
        λ (r, new). let there = full r in ground (arith, both, there, new),
      )

  stays :
      IsClosed edges requested
      → {v : String} → Reach edges requested v
      → contains requested v ≡ true
  stays h (here m) = m
  stays h (follow {u} {v} p named r) = h u v (stays h p) r

  pub missing-nil_iff : Named requested → (missing requested edges ≡ []) ↔ IsClosed edges requested
  missing-nil_iff named = (clean, full)
    where
      clean : missing requested edges ≡ [] → IsClosed edges requested
      clean e u v m r = elim (Bool-cases (contains requested v)) [
        | inl there ↦ there
        | inr new ↦
            let listed = (missing_iff v).1 (∣ follow (here m) (named u m) r ∣₁, new) in
            absurd (ground (arith, listed, ap (λ ts. contains ts v) e))
      ]

      full : IsClosed edges requested → missing requested edges ≡ []
      full h = elim (List-cases (missing requested edges)) [
        | inl nothing ↦ nothing
        | inr (v, rest, e) ↦
            let (reached, new) =
              (missing_iff v).0 (ap (λ ts. contains ts v) e ∙ ground (arith, eq_iff v v)) in
            absurd (ground (arith, new, ∥∥₁_elim reached (So-prop _) (stays h)))
      ]

all-contains :
    (ts : List String) (u : String)
    → all valid_table ts ≡ true
    → contains ts u ≡ true
    → valid_table u ≡ true
all-contains [] u h m = cc
all-contains (t ∷ ts) u h m = elim (Bool-cases (t == u)) [
  | inl same ↦ let q = ap valid_table ((eq_iff t u).0 same) in ground (arith, q, h)
  | inr other ↦ all-contains ts u (ground (arith, h)) (ground (arith, m, other))
]

valid_table-empty : (u : String) → valid_table u ≡ true → (u == "") ≡ false
unfolding valid_table codes
valid_table-empty u h = elim (Bool-cases (u == "")) [
  | inl same ↦ let e = ap valid_table ((eq_iff u "").0 same) in absurd (cc (sym h, e))
  | inr other ↦ other
]

-- The tables that are kept are valid, and so have names.
pub normalize_tables-Named :
    (tables : Option (List String)) {requested : List String}
    → normalize_tables tables ≡ ok (some requested)
    → Named requested
unfolding normalize_tables
normalize_tables-Named none h u m = absurd (ground (arith, h))
normalize_tables-Named (some tables) {requested} h u m = elim (List-cases (trimmed tables)) [
  | inl empty ↦ absurd (ground (arith, h, empty))
  | inr (t, ts, e) ↦ elim (Bool-cases (all valid_table (t ∷ ts))) [
    | inr bad ↦ absurd (ground (arith, h, e, bad))
    | inl good ↦
        let same : requested ≡ unique_sorted (t ∷ ts) = ground (arith, h, e, good) in
        let there =
          sym (contains-unique_sorted (t ∷ ts) u) ∙ ap (λ r. contains r u) (sym same) ∙ m in
        valid_table-empty u (all-contains (t ∷ ts) u good there)
  ]
]
