-- ===== src/Database/Mirrors.antt =====
-- A table beside the dict of its entities: its rows are those of the dict's values.
use mathlib.Core.Option
use vpn_controll_app.Base.{
  ℕ, Bool, Option, none, some, List, [], ◌∷◌, map, find, count, ◌≡◌, refl, ap, ◌∙◌, arith, ◌==◌,
  nat_Eq, inl, inr, Bool-cases,
}
use vpn_controll_app.Base.Sort.{sorted, sorted_reverse}
use vpn_controll_app.Dict.{Dict, lookup, insert, values}
use vpn_controll_app.Dict.Distinct.{Distinct, insert-Distinct}
use vpn_controll_app.Database.Sql.{merge, read_all, read_one}
use vpn_controll_app.Database.Tables.{
  Keyed, merge-insert, find-lookup, sorted-map, sorted_reverse-map,
}

-- Each entity is filed once and under its id.
pub record Mirrors {V R : Type 0} (row : V → R) (id_of : V → ℕ) (table : List R) (d : Dict ℕ V)
    : Type 0 where
  pub rows : table ≡ map row (values d)
  pub distinct : Distinct d
  pub keyed : Keyed id_of d

module _ {V R : Type 0} (row : V → R) (id_of : V → ℕ) where
  Keyed-insert : (v : V) (d : Dict ℕ V) → Keyed id_of d → Keyed id_of (insert (id_of v) v d)
  unfolding insert
  Keyed-insert v [] h = (refl, tt)
  Keyed-insert v ((j, w) ∷ d) h = elim (Bool-cases (j == id_of v)) [
    | inl here ↦ rw here (refl, h.1)
    | inr there ↦ rw there (h.0, Keyed-insert v d h.1)
  ]

  pub lookup-Keyed :
      (k : ℕ) (v : V) (d : Dict ℕ V) → Keyed id_of d → lookup k d ≡ some v → k ≡ id_of v
  unfolding lookup
  lookup-Keyed k v [] h e = cc
  lookup-Keyed k v ((j, w) ∷ d) h e = ground (arith, h.0, lookup-Keyed k v d h.1)

  pub insert-Mirrors :
      (v : V) (table table' : List R) (d : Dict ℕ V)
      → Mirrors row id_of table d
      → table' ≡ map row (values (insert (id_of v) v d))
      → Mirrors row id_of table' (insert (id_of v) v d)
  insert-Mirrors v table table' d h e = record {
    rows = e;
    distinct = insert-Distinct (id_of v) v d h.distinct;
    keyed = Keyed-insert v d h.keyed;
  }

  module _ (pk : R → ℕ) (same : (v : V) → pk (row v) ≡ id_of v) where
    pub merge-Mirrors :
        (v : V) (table : List R) (d : Dict ℕ V)
        → Mirrors row id_of table d
        → Mirrors row id_of (merge pk (row v) table) (insert (id_of v) v d)
    merge-Mirrors v table d h =
        insert-Mirrors v table _ d h
          (ap (merge pk (row v)) h.rows ∙ merge-insert row id_of pk same v d h.keyed)

  module _ (of : R → Option V) (back : (v : V) → of (row v) ≡ some v) where
    pub read_all-map : (vs : List V) → read_all of (map row vs) ≡ some vs
    unfolding read_all
    read_all-map [] = refl
    read_all-map (v ∷ vs) = ground (arith, back v, read_all-map vs)

    pub read_one-map : (o : Option V) → read_one of (Option.map row o) ≡ some o
    unfolding read_one
    read_one-map none = refl
    read_one-map (some v) = ap (Option.map some) (back v)

    -- Reading the row with an id, and reading the rows that a WHERE keeps in the order of a column.
    pub get-lookup :
        (pk : R → ℕ) (same : (v : V) → pk (row v) ≡ id_of v) (k : ℕ) (table : List R) (d : Dict ℕ V)
        → Mirrors row id_of table d
        → read_one of (find (λ r. pk r == k) table) ≡ some (lookup k d)
    get-lookup pk same k table d h =
        ap (λ t. read_one of (find (λ r. pk r == k) t)) h.rows
        ∙ ap (read_one of) (find-lookup row id_of pk same k d h.keyed)
        ∙ read_one-map (lookup k d)

    module _ (key : V → ℕ) (column : R → ℕ) (ordered : (v : V) → column (row v) ≡ key v) where
      pub read_sorted :
          (vs : List V) → read_all of (sorted column (map row vs)) ≡ some (sorted key vs)
      read_sorted vs = ap (read_all of) (sorted-map row key column ordered vs) ∙ read_all-map _

      pub read_sorted_reverse :
          (vs : List V)
          → read_all of (sorted_reverse column (map row vs)) ≡ some (sorted_reverse key vs)
      read_sorted_reverse vs =
          ap (read_all of) (sorted_reverse-map row key column ordered vs) ∙ read_all-map _

  -- Counting the rows that a WHERE keeps.
  pub count-map :
      (p : V → Bool) (q : R → Bool)
      → ((v : V) → q (row v) ≡ p v)
      → (vs : List V) → count q (map row vs) ≡ count p vs
  count-map p q alike [] = refl
  count-map p q alike (v ∷ vs) = ground (arith, alike v, count-map p q alike vs)
