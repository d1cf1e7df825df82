-- ===== src/Versioning/Closure/Reachable.antt =====
-- The resolved tables are those that foreign keys lead to, and the loop ends.
use mathlib.Core.Logic.{∥∥₁_elim}
use mathlib.Core.Bool.{So-prop}
use deltix_server.Common.{
  ℕ, zero, suc, ◌+◌, ◌≤◌, ◌≡◌, ap, sym, ◌∙◌, ◌↔◌, ◌⊎◌, inl, inr, true, false, not, ◌&&◌, ◌||◌,
  String, List, [], ◌∷◌, ◌==◌, string_eq, length, contains, arith, eq_iff, Bool-cases, List-cases,
}
use deltix_server.Versioning.Names.{contains-sort}
use deltix_server.Versioning.Closure.{
  ForeignKeyEdge, TableMap, by_table, Search, scan, expand, run, search_closure, requested_twice,
  compute_closure,
}
use deltix_server.Versioning.Closure.Scan.{
  refers, by_table-refers, scan-resolved, scan-queue, unresolved, work, scan-work,
}

-- The tables that foreign keys lead to from the requested ones. No step leaves a table with the
-- empty name.
pub data Reach (edges : List ForeignKeyEdge) (requested : List String) : String → Type 0 where
  here : {v : String} → contains requested v ≡ true → Reach edges requested v
  follow :
      {u v : String}
      → Reach edges requested u
      → (u == "") ≡ false
      → refers edges u v ≡ true
      → Reach edges requested v

module _ (edges : List ForeignKeyEdge) (requested : List String) where
  abbrev table_map : TableMap
  table_map = by_table edges (λ _. [])

  dependencies : (u v : String) → contains (table_map u) v ≡ refers edges u v
  dependencies u v = by_table-refers edges (λ _. []) u v

  -- What holds between two rounds.
  record Inv (s : Search) : Type 0 where
    begun : (v : String) → contains requested v ≡ true → contains s.resolved v ≡ true
    queued : (v : String) → contains s.queue v ≡ true → contains s.resolved v ≡ true
    sound : (v : String) → contains s.resolved v ≡ true → Reach edges requested v
    closed :
        (u v : String)
        → contains s.resolved u ≡ true
        → (u == "") ≡ false
        → refers edges u v ≡ true
        → (contains s.queue u ≡ true) ⊎ (contains s.resolved v ≡ true)

  Inv-start : Inv (requested_twice requested)
  unfolding requested_twice
  Inv-start = record {
    begun = λ v m. m;
    queued = λ v m. m;
    sound = λ v m. here m;
    closed = λ u v m _ _. inl m;
  }

  Inv-expand :
      (s : Search) (u : String) (rest : List String)
      → s.queue ≡ u ∷ rest
      → Inv s
      → Inv (expand table_map s u rest)
  unfolding expand
  Inv-expand s u rest e h = elim (Bool-cases (u == "")) [
    | inl empty ↦ rw empty (record {
      begun = begun;
      queued = λ v q. queued v (after v q);
      sound = sound;
      closed = λ x v m named r. ground (arith, closed x v m named r, spread x, eq_iff u x, empty);
    })
    | inr named ↦ rw named (record {
      begun = λ v m. ground (arith, resolved v, begun v m);
      queued = λ v q. ground (arith, resolved v, queue v, queued v, spread v);
      sound = λ v m. elim (Bool-cases (contains s.resolved v)) [
        | inl old ↦ sound v old
        | inr new ↦
            follow (sound u (queued u (ground (arith, spread u, eq_iff u u)))) named
              (ground (arith, resolved v, new, m))
      ];
      closed = λ x v m real r. ground (
        arith,
        resolved x,
        resolved v,
        queue x,
        closed x v,
        spread x,
        eq_iff u x,
        m,
        real,
        r,
        ap (λ w. refers edges w v) {x = u} {y = x},
      );
    })
  ]
    where
      open h use {begun, queued, sound, closed}

      t : Search
      t = record s { queue = rest }

      spread : (v : String) → contains s.queue v ≡ (u == v || contains rest v)
      spread v = ap (λ q. contains q v) e

      after : (v : String) → contains rest v ≡ true → contains s.queue v ≡ true
      after v q = ground (arith, spread v, q)

      resolved :
          (v : String)
          → contains (scan t (table_map u)).resolved v ≡ (contains s.resolved v || refers edges u v)
      resolved v = ground (arith, scan-resolved t (table_map u) v, dependencies u v)

      queue :
          (v : String)
          → contains (scan t (table_map u)).queue v
            ≡ (contains rest v || refers edges u v && not (contains s.resolved v))
      queue v = ground (arith, scan-queue t (table_map u) v, dependencies u v)

  expand-work :
      (s : Search) (u : String) (rest : List String)
      → s.queue ≡ u ∷ rest
      → suc (work edges (expand table_map s u rest)) ≤ work edges s
  unfolding expand
  expand-work s u rest e =
      let waiting = ap length e in
      let rounds =
        scan-work edges u (record s { queue = rest }) (table_map u)
          (λ v m. sym (dependencies u v) ∙ m) in
      elim (Bool-cases (u == "")) [
        | inl empty ↦ rw empty (omega (arith, waiting))
        | inr named ↦ rw named (omega (arith, waiting, rounds))
      ]

  run_ends : (fuel : ℕ) (s : Search) → work edges s ≤ fuel → (run table_map fuel s).queue ≡ []
  unfolding run
  run_ends zero s h = elim (List-cases s.queue) [
    | inl empty ↦ empty
    | inr (u, rest, e) ↦ absurd (omega (arith, ap length e))
  ]
  run_ends (suc fuel) s h = elim (List-cases s.queue) [
    | inl empty ↦ rw (empty, run) empty
    | inr (u, rest, e) ↦
        rw (e, run)
          (run_ends fuel (expand table_map s u rest) (omega (arith, expand-work s u rest e)))
  ]

  run-Inv : (fuel : ℕ) (s : Search) → Inv s → Inv (run table_map fuel s)
  unfolding run
  run-Inv zero s h = h
  run-Inv (suc fuel) s h = elim (List-cases s.queue) [
    | inl empty ↦ rw (empty, run) h
    | inr (u, rest, e) ↦
        rw (e, run) (run-Inv fuel (expand table_map s u rest) (Inv-expand s u rest e h))
  ]

  complete :
      (s : Search)
      → Inv s
      → s.queue ≡ []
      → {v : String} → Reach edges requested v
      → contains s.resolved v ≡ true
  complete s h e (here {v} m) = h.begun v m
  complete s h e (follow {u} {v} p named r) = elim (h.closed u v (complete s h e p) named r) [
    | inl waiting ↦ absurd (ground (arith, ap (λ q. contains q u) e, waiting))
    | inr m ↦ m
  ]

  unresolved_le : (es : List ForeignKeyEdge) (ts : List String) → unresolved es ts ≤ length es
  unresolved_le [] ts = omega arith
  unresolved_le (e ∷ es) ts = ground (arith, unresolved_le es ts)

-- The `while` loop ends: within as many rounds as there are requested tables and foreign keys, the
-- queue is empty.
pub search_closure_ends :
    (requested : List String) (edges : List ForeignKeyEdge)
    → (search_closure requested edges).queue ≡ []
unfolding search_closure requested_twice
search_closure_ends requested edges =
    run_ends edges requested _ (requested_twice requested)
      (omega (arith, unresolved_le edges requested edges requested))

-- A table is in the closure exactly when foreign keys lead to it from a requested table, the
-- requested tables themselves included.
pub compute_closure_iff :
    (requested : List String) (edges : List ForeignKeyEdge) (v : String)
    → (contains (compute_closure requested edges) v ≡ true) ↔ ∥ Reach edges requested v ∥₁
unfolding compute_closure search_closure
compute_closure_iff requested edges v =
    let inv =
      run-Inv edges requested (length requested + length edges) (requested_twice requested)
        (Inv-start edges requested) in
    let s = search_closure requested edges in
    let sorted = contains-sort s.resolved v in
    (
      λ m. ∣ inv.sound v (sym sorted ∙ m) ∣₁,
      λ r.
          sorted
          ∙ ∥∥₁_elim r (So-prop _)
              (complete edges requested s inv (search_closure_ends requested edges)),
    )
