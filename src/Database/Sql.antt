-- ===== src/Database/Sql.antt =====
-- SQL statements over a table, which is the list of its rows in the order of their insertion; rows
-- that tie in an ORDER BY, for which SQL promises no order, come in that order. A statement that
-- PostgreSQL refuses for a unique column is none.
use mathlib.Core.Option
use vpn_controll_app.Base.{
  ℕ, Bool, not, ◌&&◌, Option, none, some, List, [], ◌∷◌, any, filter, Eq, ◌==◌, nat_Eq,
  if◌then◌else◌,
}

module _ {ℓ} {R : Type ℓ} where
  -- `session.merge(row)`: the row with its primary key is replaced, or the row is inserted.
  unfoldable pub merge : (R → ℕ) → R → List R → List R
  merge key row [] = row ∷ []
  merge key row (old ∷ rows) = if key old == key row then row ∷ rows else old ∷ merge key row rows

  -- `UPDATE … WHERE … SET …`
  unfoldable pub update_where : (R → Bool) → (R → R) → List R → List R
  update_where p f [] = []
  update_where p f (row ∷ rows) = (if p row then f row else row) ∷ update_where p f rows

  -- `DELETE … WHERE …`
  abbrev pub delete_where : (R → Bool) → List R → List R
  delete_where p rows = filter (λ row. not (p row)) rows

  -- A merge into a table with a unique column.
  unfoldable pub merge_unique {κ} :
      {K : Type κ} ⦃e : Eq K⦄ → (R → ℕ) → (R → K) → R → List R → Option (List R)
  merge_unique key column row rows =
      if any (λ old. column old == column row && not (key old == key row)) rows
      then none
      else some (merge key row rows)

  -- The conversion of the rows that a query returned; none where one of them raises.
  unfoldable pub read_all {κ} : {A : Type κ} → (R → Option A) → List R → Option (List A)
  read_all of [] = some []
  read_all of (row ∷ rows) = elim (of row) [
    | none ↦ none
    | some a ↦ Option.map (λ rest. a ∷ rest) (read_all of rows)
  ]

  -- `_x(row) if row else None`
  unfoldable pub read_one {κ} : {A : Type κ} → (R → Option A) → Option R → Option (Option A)
  read_one of none = some none
  read_one of (some row) = Option.map some (of row)
