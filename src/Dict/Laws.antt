-- ===== src/Dict/Laws.antt =====
-- What a lookup, a count and a predicate on the values see after each update of a dict.
use vpn_controll_app.Base.{
  ◌+◌, ◌≡◌, refl, ◌≢◌, ◌⊎◌, Bool, true, none, some, [], ◌∷◌, arith, Eq, ◌==◌, if◌then◌else◌, inl,
  inr, count,
}
use mathlib.Core.Path.{subst₂}
use vpn_controll_app.Dict.{Dict, lookup, insert, erase, values, map_values}

pub equal_self {ℓ} : {K : Type ℓ} ⦃e : Eq K⦄ (k : K) → (k == k) ≡ true
equal_self ⦃e⦄ k = (e.is_equal_iff k k).1 refl

module _ {ℓ κ} {K : Type ℓ} {V : Type κ} ⦃e : Eq K⦄ where
  pub lookup-insert :
      (k j : K) (v : V) (d : Dict K V)
      → lookup j (insert k v d) ≡ (if k == j then some v else lookup j d)
  unfolding lookup insert
  lookup-insert k j v [] = refl
  lookup-insert k j v ((i, w) ∷ d) =
      ground
        (arith, e.is_equal_iff k j, e.is_equal_iff i k, e.is_equal_iff i j, lookup-insert k j v d)

  pub lookup-erase :
      (k j : K) (d : Dict K V) → lookup j (erase k d) ≡ (if k == j then none else lookup j d)
  unfolding lookup erase
  lookup-erase k j [] = ground arith
  lookup-erase k j ((i, w) ∷ d) =
      ground (arith, e.is_equal_iff k j, e.is_equal_iff i k, e.is_equal_iff i j, lookup-erase k j d)

  pub lookup-insert_self : (k : K) (v : V) (d : Dict K V) → lookup k (insert k v d) ≡ some v
  lookup-insert_self k v d = ground (arith, lookup-insert k k v d, equal_self k)

  pub lookup-insert_ne :
      (k j : K) (v : V) (d : Dict K V) → k ≢ j → lookup j (insert k v d) ≡ lookup j d
  lookup-insert_ne k j v d h = ground (arith, lookup-insert k j v d, e.is_equal_iff k j)

  pub count-insert_new :
      (p : V → Bool) (k : K) (v : V) (d : Dict K V)
      → lookup k d ≡ none
      → count p (values (insert k v d)) ≡ count p (values d) + (if p v then 1 else 0)
  unfolding lookup insert values
  count-insert_new p k v [] h = omega arith
  count-insert_new p k v ((j, w) ∷ d) h = ground (arith, count-insert_new p k v d)

  pub count-insert_old :
      (p : V → Bool) (k : K) (v u : V) (d : Dict K V)
      → lookup k d ≡ some u
      → count p (values (insert k v d)) + (if p u then 1 else 0)
        ≡ count p (values d) + (if p v then 1 else 0)
  unfolding lookup insert values
  count-insert_old p k v u [] h = cc
  count-insert_old p k v u ((j, w) ∷ d) h = ground (arith, count-insert_old p k v u d)

  pub lookup-map_values :
      (f : V → V) (k : K) (d : Dict K V)
      → lookup k (map_values f d) ≡ elim (lookup k d) [ none ↦ none | some v ↦ some (f v) ]
  unfolding lookup map_values
  lookup-map_values f k [] = refl
  lookup-map_values f k ((j, w) ∷ d) = ground (arith, lookup-map_values f k d)

  pub insert_cases :
      (k j : K) (v w : V) (d : Dict K V)
      → lookup j (insert k v d) ≡ some w
      → ((k ≡ j) × (v ≡ w)) ⊎ (lookup j d ≡ some w)
  insert_cases k j v w d h = ground (arith, lookup-insert k j v d, e.is_equal_iff k j)

  -- A predicate of every entry.
  abbrev pub AllValues {μ} : (K → V → Type μ) → Dict K V → Type (ℓ ⊔ κ ⊔ μ)
  AllValues P d = (k : K) (v : V) → lookup k d ≡ some v → P k v

  pub AllValues-insert {μ} :
      (P : K → V → Type μ) (k : K) (v : V) (d : Dict K V)
      → AllValues P d
      → P k v
      → AllValues P (insert k v d)
  AllValues-insert P k v d h p = λ j w q. elim (insert_cases k j v w d q) [
    | inl (same, new) ↦ subst₂ P same new p
    | inr old ↦ h j w old
  ]
