-- ===== src/Database/Tables.antt =====
-- A table that holds the rows of a dict's values: what its statements do, against the dict.
use mathlib.Core.Option
use vpn_controll_app.Base.{
  ℕ, Bool, true, false, ◌&&◌, none, some, List, [], ◌∷◌, map, find, filter, first, ◌≡◌, refl, ap,
  ◌∙◌, arith, ◌==◌, nat_Eq, inl, inr, Bool-cases,
}
use vpn_controll_app.Base.Sort.{sorted, insert_up, sorted_reverse, insert_down}
use vpn_controll_app.Dict.{Dict, lookup, insert, values}
use vpn_controll_app.Dict.Distinct.{Distinct}
use vpn_controll_app.Database.Sql.{merge, update_where}

-- Each value is filed under its id.
abbrev pub Keyed : {V : Type 0} → (V → ℕ) → Dict ℕ V → Type 0
Keyed id_of [] = Unit
Keyed id_of ((k, v) ∷ d) = (k ≡ id_of v) × Keyed id_of d

module _ {V R : Type 0} (row : V → R) (id_of : V → ℕ) (pk : R → ℕ)
    (same : (v : V) → pk (row v) ≡ id_of v) where
  pub merge-insert :
      (v : V) (d : Dict ℕ V)
      → Keyed id_of d
      → merge pk (row v) (map row (values d)) ≡ map row (values (insert (id_of v) v d))
  unfolding merge insert values
  merge-insert v [] h = refl
  merge-insert v ((j, w) ∷ d) h = ground (arith, same v, same w, h.0, merge-insert v d h.1)

  pub find-lookup :
      (k : ℕ) (d : Dict ℕ V)
      → Keyed id_of d
      → find (λ r. pk r == k) (map row (values d)) ≡ Option.map row (lookup k d)
  unfolding lookup values
  find-lookup k [] h = refl
  find-lookup k ((j, w) ∷ d) h = ground (arith, same w, h.0, find-lookup k d h.1)

  module _ (k : ℕ) (q : R → Bool) (f : R → R) where
    -- Where no value is under the id, no row matches.
    pub update-absent :
        (d : Dict ℕ V)
        → Keyed id_of d
        → lookup k d ≡ none
        → (update_where (λ r. pk r == k && q r) f (map row (values d)) ≡ map row (values d))
          × (find (λ r. pk r == k && q r) (map row (values d)) ≡ none)
    unfolding update_where lookup values
    update-absent [] h absent = (refl, refl)
    update-absent ((j, w) ∷ d) h absent =
        let later : lookup k d ≡ none = ground arith in
        let (kept, unfound) = update-absent d h.1 later in
        (ground (arith, same w, h.0), ground (arith, same w, h.0))

    -- Where the value under the id fails the test, neither.
    pub update-refused :
        (v : V) (d : Dict ℕ V)
        → Distinct d
        → Keyed id_of d
        → lookup k d ≡ some v
        → q (row v) ≡ false
        → (update_where (λ r. pk r == k && q r) f (map row (values d)) ≡ map row (values d))
          × (find (λ r. pk r == k && q r) (map row (values d)) ≡ none)
    unfolding update_where lookup values
    update-refused v [] u h found failed = cc
    update-refused v ((j, w) ∷ d) u h found failed = elim (Bool-cases (j == k)) [
      | inl here ↦
          let absent : lookup k d ≡ none = ground (arith, u.0) in
          let (kept, unfound) = update-absent d h.1 absent in
          (ground (arith, same w, h.0), ground (arith, same w, h.0))
      | inr there ↦
          let later : lookup k d ≡ some v = ground arith in
          let (kept, unfound) = update-refused v d u.1 h.1 later failed in
          (ground (arith, same w, h.0), ground (arith, same w, h.0))
    ]

    -- Where it passes, its row is changed, and is the row that is returned.
    pub update-insert :
        (v v' : V) (d : Dict ℕ V)
        → Distinct d
        → Keyed id_of d
        → lookup k d ≡ some v
        → q (row v) ≡ true
        → f (row v) ≡ row v'
        → (update_where (λ r. pk r == k && q r) f (map row (values d))
            ≡ map row (values (insert k v' d)))
          × (find (λ r. pk r == k && q r) (map row (values d)) ≡ some (row v))
    unfolding update_where lookup values insert
    update-insert v v' [] u h found passed changed = cc
    update-insert v v' ((j, w) ∷ d) u h found passed changed = elim (Bool-cases (j == k)) [
      | inl here ↦
          let absent : lookup k d ≡ none = ground (arith, u.0) in
          let (kept, unfound) = update-absent d h.1 absent in
          (ground (arith, same w, h.0), ground (arith, same w, h.0))
      | inr there ↦
          let later : lookup k d ≡ some v = ground arith in
          let (kept, unfound) = update-insert v v' d u.1 h.1 later passed changed in
          (ground (arith, same w, h.0), ground (arith, same w, h.0))
    ]

-- Sorting, filtering and taking the first of the rows of a list.
module _ {V R : Type 0} (row : V → R) where
  module _ (key : V → ℕ) (column : R → ℕ) (same : (v : V) → column (row v) ≡ key v) where
    insert_up-map :
        (v : V) (vs : List V) → insert_up column (row v) (map row vs) ≡ map row (insert_up key v vs)
    unfolding insert_up
    insert_up-map v [] = refl
    insert_up-map v (w ∷ vs) = ground (arith, same v, same w, insert_up-map v vs)

    pub sorted-map : (vs : List V) → sorted column (map row vs) ≡ map row (sorted key vs)
    unfolding sorted
    sorted-map [] = refl
    sorted-map (v ∷ vs) =
        ap (insert_up column (row v)) (sorted-map vs) ∙ insert_up-map v (sorted key vs)

    insert_down-map :
        (v : V) (vs : List V)
        → insert_down column (row v) (map row vs) ≡ map row (insert_down key v vs)
    unfolding insert_down
    insert_down-map v [] = refl
    insert_down-map v (w ∷ vs) = ground (arith, same v, same w, insert_down-map v vs)

    pub sorted_reverse-map :
        (vs : List V) → sorted_reverse column (map row vs) ≡ map row (sorted_reverse key vs)
    unfolding sorted_reverse
    sorted_reverse-map [] = refl
    sorted_reverse-map (v ∷ vs) =
        ap (insert_down column (row v)) (sorted_reverse-map vs)
        ∙ insert_down-map v (sorted_reverse key vs)

  pub filter-map :
      (p : V → Bool) (q : R → Bool)
      → ((v : V) → q (row v) ≡ p v)
      → (vs : List V) → filter q (map row vs) ≡ map row (filter p vs)
  filter-map p q same [] = refl
  filter-map p q same (v ∷ vs) = ground (arith, same v, filter-map p q same vs)

  pub first-map : (vs : List V) → first (map row vs) ≡ Option.map row (first vs)
  first-map [] = refl
  first-map (v ∷ vs) = refl
