-- ===== src/Table.antt =====
-- An SQL table as the list of its rows, and the statements that the stores issue: SELECT of the
-- first row that matches, UPDATE and DELETE of every row that matches with the number of rows
-- affected, and INSERT, which a primary key that is taken refuses.
pub mod Keys
pub mod Order
use deltix_server.Common.{
  ℕ, zero, suc, ◌≡◌, refl, Bool, List, [], ◌∷◌, Option, none, some, if◌then◌else◌,
}

module _ {ℓ} {R : Type ℓ} where
  -- `SELECT * FROM t WHERE p`, and `result.rows[0]`.
  unfoldable pub find : (R → Bool) → List R → Option R
  find p [] = none
  find p (r ∷ rows) = if p r then some r else find p rows

  -- `UPDATE t SET f WHERE p`.
  unfoldable pub update : (R → Bool) → (R → R) → List R → List R
  update p f [] = []
  update p f (r ∷ rows) = (if p r then f r else r) ∷ update p f rows

  -- `result.rowsAffected` of an UPDATE or a DELETE with `WHERE p`, and `SELECT COUNT(*)`.
  unfoldable pub affected : (R → Bool) → List R → ℕ
  affected p [] = 0
  affected p (r ∷ rows) = if p r then suc (affected p rows) else affected p rows

  -- `DELETE FROM t WHERE p`.
  unfoldable pub delete : (R → Bool) → List R → List R
  delete p [] = []
  delete p (r ∷ rows) = if p r then delete p rows else r ∷ delete p rows
