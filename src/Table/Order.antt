-- ===== src/Table/Order.antt =====
-- `ORDER BY key ASC` on a table. SQL leaves the order of equal keys open; here it is the table's.
use deltix_server.Common.{ℕ, ◌≤◌, List, [], ◌∷◌, if◌then◌else◌, leb, arith, All, All-imp}

module _ {ℓ} {R : Type ℓ} (key : R → ℕ) where
  insert_by : R → List R → List R
  insert_by r [] = r ∷ []
  insert_by r (s ∷ rows) = if leb (key r) (key s) then r ∷ s ∷ rows else s ∷ insert_by r rows

  unfoldable pub order_by : List R → List R
  unfolding insert_by
  order_by [] = []
  order_by (r ∷ rows) = insert_by r (order_by rows)

  -- Each row is at most the ones behind it.
  abbrev pub IsOrdered : List R → Type 0
  IsOrdered [] = Unit
  IsOrdered (r ∷ rows) = All (λ s. key r ≤ key s) rows × IsOrdered rows

  insert_by-All {κ} :
      (P : R → Type κ) (r : R) (rows : List R) → P r → All P rows → All P (insert_by r rows)
  unfolding insert_by
  insert_by-All P r [] p h = (p, tt)
  insert_by-All P r (s ∷ rows) p h = ground (arith, insert_by-All P r rows p h.1)

  insert_by-All_inv {κ} :
      (P : R → Type κ) (r : R) (rows : List R) → All P (insert_by r rows) → P r × All P rows
  unfolding insert_by
  insert_by-All_inv P r [] h = h
  insert_by-All_inv P r (s ∷ rows) h = ground (arith, insert_by-All_inv P r rows)

  pub order_by-All {κ} : (P : R → Type κ) (rows : List R) → All P rows → All P (order_by rows)
  unfolding order_by
  order_by-All P [] h = tt
  order_by-All P (r ∷ rows) h = insert_by-All P r (order_by rows) h.0 (order_by-All P rows h.1)

  pub order_by-All_inv {κ} : (P : R → Type κ) (rows : List R) → All P (order_by rows) → All P rows
  unfolding order_by
  order_by-All_inv P [] h = tt
  order_by-All_inv P (r ∷ rows) h =
      let (p, rest) = insert_by-All_inv P r (order_by rows) h in (p, order_by-All_inv P rows rest)

  All-below :
      (r s : R) (rows : List R)
      → key r ≤ key s
      → All (λ q. key s ≤ key q) rows
      → All (λ q. key r ≤ key q) rows
  All-below r s rows h = All-imp _ _ (λ q k. omega arith) rows

  insert_by-IsOrdered : (r : R) (rows : List R) → IsOrdered rows → IsOrdered (insert_by r rows)
  unfolding insert_by
  insert_by-IsOrdered r [] h = (tt, tt)
  insert_by-IsOrdered r (s ∷ rows) h = ground (
    arith,
    insert_by-IsOrdered r rows h.1,
    insert_by-All (λ q. key s ≤ key q) r rows,
    All-below r s rows,
  )

  pub order_by-IsOrdered : (rows : List R) → IsOrdered (order_by rows)
  unfolding order_by
  order_by-IsOrdered [] = tt
  order_by-IsOrdered (r ∷ rows) = insert_by-IsOrdered r (order_by rows) (order_by-IsOrdered rows)
