-- ===== src/Table/Keys.antt =====
-- Tables with a primary key: what a statement on one key does to the row of another.
use mathlib.Core.Option
use deltix_server.Common.{
  All, All-imp, All-append, Bool-cases, inl, inr, ap, ◌∙◌, false, nat_eq, ℕ, ◌≡◌, refl, Bool, true,
  ◌&&◌, List, [], ◌∷◌, ◌++◌, Option, none, some, if◌then◌else◌, Eq, ◌==◌, arith,
}
use deltix_server.Table.{find, update, affected, delete}

-- One row for a key, or none: the affected rows when the key is unique.
abbrev pub one_if {ℓ} : {R : Type ℓ} → (R → Bool) → Option R → ℕ
one_if c none = 0
one_if c (some r) = if c r then 1 else 0

abbrev pub meets {ℓ} : {R : Type ℓ} → (R → Bool) → Option R → Bool
meets c none = false
meets c (some r) = c r

one_if-meets {ℓ} : {R : Type ℓ} (c : R → Bool) (o : Option R) → (one_if c o == 1) ≡ meets c o
one_if-meets c none = refl
one_if-meets c (some r) = ground arith

module _ {ℓ κ} {R : Type ℓ} {K : Type κ} ⦃e : Eq K⦄ (key : R → K) where
  abbrev pub lookup : K → List R → Option R
  lookup k rows = find (λ r. key r == k) rows

  -- `INSERT INTO t`; `none` is the violated PRIMARY KEY constraint.
  unfoldable pub insert : R → List R → Option (List R)
  insert r rows = elim (lookup (key r) rows) [ none ↦ some (rows ++ r ∷ []) | some _ ↦ none ]

  -- The PRIMARY KEY constraint.
  abbrev pub Unique : List R → Type ℓ
  Unique [] = Unit
  Unique (r ∷ rows) = (lookup (key r) rows ≡ none) × Unique rows

  pub lookup-key : (k : K) (rows : List R) {r : R} → lookup k rows ≡ some r → key r ≡ k
  unfolding find
  lookup-key k [] h = cc
  lookup-key k (s ∷ rows) {r} h = ground (arith, e.beq_iff (key s) k, lookup-key k rows {r = r})

  -- A statement that keeps the keys changes a row or leaves it, wherever it stands.
  pub lookup-update :
      (p : R → Bool) (f : R → R)
      → ((r : R) → key (f r) ≡ key r)
      → (k : K) (rows : List R)
      → lookup k (update p f rows) ≡ Option.map (λ r. if p r then f r else r) (lookup k rows)
  unfolding find update
  lookup-update p f keep k [] = refl
  lookup-update p f keep k (r ∷ rows) =
      ground
        (arith, keep r, lookup-update p f keep k rows, e.beq_iff (key r) k, e.beq_iff (key (f r)) k)

  pub update-Unique :
      (p : R → Bool) (f : R → R)
      → ((r : R) → key (f r) ≡ key r)
      → (rows : List R) → Unique rows
      → Unique (update p f rows)
  unfolding update
  update-Unique p f keep [] u = tt
  update-Unique p f keep (r ∷ rows) u = (
    rw (same (p r), lookup-update p f keep (key r) rows, u.0) refl,
    update-Unique p f keep rows u.1,
  )
    where
      same : (b : Bool) → key (if b then f r else r) ≡ key r
      same true = keep r
      same false = refl

  lookup-append :
      (k : K) (rows : List R) (r : R)
      → lookup k (rows ++ r ∷ [])
        ≡ elim (lookup k rows) [ none ↦ if key r == k then some r else none | some s ↦ some s ]
  unfolding find
  lookup-append k [] r = ground arith
  lookup-append k (s ∷ rows) r = ground (arith, lookup-append k rows r)

  pub insert-eq-some :
      (r : R) (rows : List R) {rows' : List R}
      → insert r rows ≡ some rows'
      → (lookup (key r) rows ≡ none) × (rows' ≡ rows ++ r ∷ [])
  unfolding insert
  insert-eq-some r rows h = ground arith

  pub lookup-insert :
      (r : R) (rows : List R) (k : K) {rows' : List R}
      → insert r rows ≡ some rows'
      → lookup k rows' ≡ (if key r == k then some r else lookup k rows)
  lookup-insert r rows k {rows'} h =
      let (free, same) = insert-eq-some r rows h in
      ground (arith, e.beq_iff (key r) k, lookup-append k rows r)

  append-Unique :
      (rows : List R) (r : R) → Unique rows → lookup (key r) rows ≡ none → Unique (rows ++ r ∷ [])
  unfolding find
  append-Unique [] r u free = (refl, tt)
  append-Unique (s ∷ rows) r u free = ground (
    arith,
    append-Unique rows r u.1,
    lookup-append (key s) rows r,
    e.beq_iff (key s) (key r),
    e.beq_iff (key r) (key s),
  )

  pub insert-Unique :
      (r : R) (rows : List R) {rows' : List R}
      → Unique rows
      → insert r rows ≡ some rows'
      → Unique rows'
  insert-Unique r rows {rows'} u h =
      let (free, same) = insert-eq-some r rows h in rw same (append-Unique rows r u free)

  pub insert-none :
      (r : R) (rows : List R) {s : R} → lookup (key r) rows ≡ some s → insert r rows ≡ none
  unfolding insert
  insert-none r rows h = ground (arith, h)

  pub insert-some :
      (r : R) (rows : List R) → lookup (key r) rows ≡ none → insert r rows ≡ some (rows ++ r ∷ [])
  unfolding insert
  insert-some r rows h = ground (arith, h)

  affected-none :
      (c : R → Bool) (k : K) (rows : List R)
      → lookup k rows ≡ none
      → affected (λ r. key r == k && c r) rows ≡ 0
  unfolding find affected
  affected-none c k [] h = refl
  affected-none c k (r ∷ rows) h = ground (arith, affected-none c k rows)

  -- With the key in its condition a statement affects one row, or none.
  pub affected-lookup :
      (c : R → Bool) (k : K) (rows : List R)
      → Unique rows
      → affected (λ r. key r == k && c r) rows ≡ one_if c (lookup k rows)
  unfolding find affected
  affected-lookup c k [] u = refl
  affected-lookup c k (r ∷ rows) u =
      ground (arith, e.beq_iff (key r) k, affected-lookup c k rows u.1, affected-none c k rows)

  -- So the test of `rowsAffected === 1` says whether the row is there and meets the condition.
  pub won-lookup :
      (c : R → Bool) (k : K) (rows : List R)
      → Unique rows
      → (affected (λ r. key r == k && c r) rows == 1) ≡ meets c (lookup k rows)
  won-lookup c k rows u =
      ap (λ n. n == 1) (affected-lookup c k rows u) ∙ one_if-meets c (lookup k rows)

  delete-lookup-none :
      (p : R → Bool) (k : K) (rows : List R)
      → lookup k rows ≡ none
      → lookup k (delete p rows) ≡ none
  unfolding find delete
  delete-lookup-none p k [] h = refl
  delete-lookup-none p k (r ∷ rows) h = ground (arith, delete-lookup-none p k rows)

  pub delete-Unique : (p : R → Bool) (rows : List R) → Unique rows → Unique (delete p rows)
  unfolding delete
  delete-Unique p [] u = tt
  delete-Unique p (r ∷ rows) u =
      ground (arith, delete-Unique p rows u.1, delete-lookup-none p (key r) rows u.0)

  -- A row that the condition spares stays, and one that it meets is gone.
  pub lookup-delete :
      (p : R → Bool) (k : K) (rows : List R)
      → Unique rows
      → lookup k (delete p rows)
        ≡ elim (lookup k rows) [ none ↦ none | some r ↦ if p r then none else some r ]
  unfolding find delete
  lookup-delete p k [] u = refl
  lookup-delete p k (r ∷ rows) u =
      ground (arith, e.beq_iff (key r) k, lookup-delete p k rows u.1, delete-lookup-none p k rows)

  -- Every row of the table is the one that its key finds.
  pub Unique-lookup : (rows : List R) → Unique rows → All (λ r. lookup (key r) rows ≡ some r) rows
  unfolding find
  Unique-lookup [] u = tt
  Unique-lookup (r ∷ rows) u =
      (ground (arith, e.beq_iff (key r) (key r)), All-imp _ _ behind rows (Unique-lookup rows u.1))
    where
      behind : (q : R) → lookup (key q) rows ≡ some q → lookup (key q) (r ∷ rows) ≡ some q
      behind q h = elim (Bool-cases (key r == key q)) [
        | inl same ↦ ground (arith, ap (λ k. lookup k rows) ((e.beq_iff (key r) (key q)).0 same))
        | inr other ↦ rw other h
      ]

  pub insert-All {μ} :
      (P : R → Type μ) (r : R) (rows : List R) {rows' : List R}
      → P r
      → All P rows
      → insert r rows ≡ some rows'
      → All P rows'
  insert-All P r rows p h e =
      let (free, same) = insert-eq-some r rows e in rw same (All-append P rows (r ∷ []) h (p, tt))

module _ {ℓ} {R : Type ℓ} where
  pub update-All {μ} :
      (P : R → Type μ) (p : R → Bool) (f : R → R)
      → ((r : R) → p r ≡ true → P r → P (f r))
      → (rows : List R) → All P rows
      → All P (update p f rows)
  unfolding update
  update-All P p f step [] h = tt
  update-All P p f step (r ∷ rows) h = (one, update-All P p f step rows h.1)
    where
      one : P (if p r then f r else r)
      one = elim (Bool-cases (p r)) [
        | inl holds ↦ rw holds (step r holds h.0)
        | inr fails ↦ rw fails h.0
      ]

  pub find-holds : (p : R → Bool) (rows : List R) {r : R} → find p rows ≡ some r → p r ≡ true
  unfolding find
  find-holds p [] h = cc
  find-holds p (x ∷ rows) {r} h = ground (arith, find-holds p rows {r = r})
