-- ===== src/Versioning/Closure/Scan.antt =====
-- The inner loop and the map of foreign keys: what a round adds, and the measure of the rounds.
use deltix_server.Common.{
  ℕ, suc, ◌+◌, ◌≤◌, ◌≡◌, ap, inl, inr, Bool, true, false, not, ◌&&◌, ◌||◌, String, List, [], ◌∷◌,
  ◌++◌, ◌==◌, if◌then◌else◌, string_eq, length, contains, contains-append, arith, eq_iff,
  Bool-cases,
}
use deltix_server.Versioning.Names.{unique_sorted, contains-unique_sorted}
use deltix_server.Versioning.Closure.{
  ForeignKeyEdge, TableMap, set_table, by_table, Search, offer, scan,
}

-- Some foreign key of the first table refers to the second.
abbrev pub refers : List ForeignKeyEdge → String → String → Bool
refers [] u v = false
refers (e ∷ edges) u v = e.table_name == u && e.referenced_table_name == v || refers edges u v

pub by_table-refers :
    (edges : List ForeignKeyEdge) (m : TableMap) (u v : String)
    → contains (by_table edges m u) v ≡ (contains (m u) v || refers edges u v)
unfolding by_table
by_table-refers [] m u v = ground arith
by_table-refers (e ∷ edges) m u v =
    let added = unique_sorted (m e.table_name ++ e.referenced_table_name ∷ []) in
    let rest = by_table-refers edges (set_table m e.table_name added) u v in
    elim (Bool-cases (u == e.table_name)) [
      | inl same ↦
          let q = (eq_iff u e.table_name).0 same in
          ground (
            arith,
            rest,
            contains-unique_sorted (m e.table_name ++ e.referenced_table_name ∷ []) v,
            contains-append (m e.table_name) (e.referenced_table_name ∷ []) v,
            eq_iff e.table_name u,
            ap (λ w. contains (m w) v) q,
            q,
            same,
          )
      | inr other ↦ ground (arith, rest, eq_iff e.table_name u, eq_iff u e.table_name, other)
    ]

-- A round resolves the dependencies, and queues those that it newly resolves.
pub scan-resolved :
    (s : Search) (ds : List String) (v : String)
    → contains (scan s ds).resolved v ≡ (contains s.resolved v || contains ds v)
unfolding scan
scan-resolved s [] v = ground arith
scan-resolved s (d ∷ ds) v =
    ground
      (arith, scan-resolved (offer s d) ds v, contains-append s.resolved (d ∷ []) v, eq_iff d v)

pub scan-queue :
    (s : Search) (ds : List String) (v : String)
    → contains (scan s ds).queue v
      ≡ (contains s.queue v || contains ds v && not (contains s.resolved v))
unfolding scan
scan-queue s [] v = ground arith
scan-queue s (d ∷ ds) v = ground (
  arith,
  scan-queue (offer s d) ds v,
  contains-append s.resolved (d ∷ []) v,
  contains-append s.queue (d ∷ []) v,
  eq_iff d v,
)

-- The foreign keys whose target is not resolved.
abbrev pub unresolved : List ForeignKeyEdge → List String → ℕ
unresolved [] resolved = 0
unresolved (e ∷ edges) resolved =
    if contains resolved e.referenced_table_name
    then unresolved edges resolved
    else suc (unresolved edges resolved)

length-append : (xs ys : List String) → length (xs ++ ys) ≡ length xs + length ys
length-append [] ys = omega arith
length-append (x ∷ xs) ys = omega (arith, length-append xs ys)

unresolved_less :
    (edges : List ForeignKeyEdge) (resolved : List String) (u d : String)
    → (unresolved edges (resolved ++ d ∷ []) ≤ unresolved edges resolved)
      × (refers edges u d ≡ true
          → contains resolved d ≡ false
          → suc (unresolved edges (resolved ++ d ∷ [])) ≤ unresolved edges resolved)
unresolved_less [] resolved u d = (omega arith, λ h. cc)
unresolved_less (e ∷ edges) resolved u d = elim (Bool-cases (d == e.referenced_table_name)) [
  | inl same ↦
      let q = (eq_iff d e.referenced_table_name).0 same in
      let at = ap (contains resolved) q in
      ground (
        arith,
        unresolved_less edges resolved u d,
        contains-append resolved (d ∷ []) e.referenced_table_name,
        same,
        at,
      )
  | inr other ↦ ground (
    arith,
    unresolved_less edges resolved u d,
    contains-append resolved (d ∷ []) e.referenced_table_name,
    eq_iff e.referenced_table_name d,
    eq_iff d e.referenced_table_name,
    other,
  )
]

-- The rounds still to come: what waits in the queue and what can still join it.
abbrev pub work : List ForeignKeyEdge → Search → ℕ
work edges s = unresolved edges s.resolved + length s.queue

pub scan-work :
    (edges : List ForeignKeyEdge) (u : String) (s : Search) (ds : List String)
    → ((v : String) → contains ds v ≡ true → refers edges u v ≡ true)
    → work edges (scan s ds) ≤ work edges s
unfolding scan
scan-work edges u s [] h = omega arith
scan-work edges u s (d ∷ ds) h =
    let behind = λ (v : String) (m : contains ds v ≡ true). h v (ground (arith, m)) in
    let head = h d (ground (arith, eq_iff d d)) in
    ground (
      arith,
      scan-work edges u (offer s d) ds behind,
      unresolved_less edges s.resolved u d,
      length-append s.queue (d ∷ []),
      head,
    )
