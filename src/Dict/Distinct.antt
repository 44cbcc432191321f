-- ===== src/Dict/Distinct.antt =====
-- A dict holds a key once: what that gives for the list of its values.
use vpn_controll_app.Base.{
  ◌≡◌, refl, subst, none, [], ◌∷◌, arith, Eq, ◌==◌, inl, inr, Bool-cases, All,
}
use vpn_controll_app.Dict.{Dict, lookup, insert, values}
use vpn_controll_app.Dict.Laws.{lookup-insert, equal_self, AllValues}

module _ {ℓ κ} {K : Type ℓ} {V : Type κ} ⦃e : Eq K⦄ where
  abbrev pub Distinct : Dict K V → Type κ
  Distinct [] = Unit
  Distinct ((k, v) ∷ d) = (lookup k d ≡ none) × Distinct d

  pub insert-Distinct : (k : K) (v : V) (d : Dict K V) → Distinct d → Distinct (insert k v d)
  unfolding insert lookup
  insert-Distinct k v [] h = (refl, tt)
  insert-Distinct k v ((j, w) ∷ d) h =
      ground (
        arith,
        insert-Distinct k v d,
        lookup-insert k j v d,
        e.is_equal_iff j k,
        e.is_equal_iff k j,
      )

  -- A predicate of every entry that a lookup finds holds for the whole list of values.
  pub All-values {μ} :
      (P : V → Type μ) (d : Dict K V) → Distinct d → AllValues (λ k v. P v) d → All P (values d)
  unfolding lookup values
  All-values P [] u h = tt
  All-values P ((k, v) ∷ d) u h = (
    h k v (ground (arith, equal_self k)),
    All-values P d u.1 (λ j w q. h j w (ground (arith, e.is_equal_iff k j))),
  )

  -- And the other way round.
  pub AllValues-All {μ} :
      (P : V → Type μ) (d : Dict K V) → All P (values d) → AllValues (λ k v. P v) d
  unfolding lookup values
  AllValues-All P [] h = λ k v q. cc
  AllValues-All P ((j, w) ∷ d) h = λ k v q. elim (Bool-cases (j == k)) [
    | inl same ↦ subst P (ground arith) h.0
    | inr other ↦ AllValues-All P d h.1 k v (ground arith)
  ]
