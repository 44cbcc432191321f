-- ===== src/Base/Filter.antt =====
-- Predicates of all elements, through a filter, to the first and to the least element.
use Prim.Native.Nat.{ℕ, zero, suc, ◌≤◌}
use mathlib.Core.Path.{◌≡◌, subst}
use mathlib.Core.Logic.{inl, inr}
use mathlib.Core.Bool.{Bool, true}
use mathlib.Core.List.{List, [], ◌∷◌, map}
use mathlib.Core.Option.{none, some, some-injective}
use native.Mathlib.Omega.{arith}
use vpn_controll_app.Base.Tests.{if◌then◌else◌, ltb, Bool-cases}
use vpn_controll_app.Base.Lists.{All, filter, first, take, length}
use vpn_controll_app.Base.Sort.{min_by, min_from}

pub first-All {ℓ κ} :
    {A : Type ℓ} (P : A → Type κ) (xs : List A) (x : A) → All P xs → first xs ≡ some x → P x
first-All P [] x h e = cc
first-All P (y ∷ ys) x h e = subst P (some-injective y x e) h.0

-- A filtered list keeps what all had, and adds the test.
pub filter-All {ℓ κ} :
    {A : Type ℓ} (P : A → Type κ) (p : A → Bool) (xs : List A)
    → All P xs
    → All (λ x. (p x ≡ true) × P x) (filter p xs)
filter-All P p [] h = tt
filter-All P p (x ∷ xs) h = elim (Bool-cases (p x)) [
  | inl passed ↦ rw passed ((passed, h.0), filter-All P p xs h.1)
  | inr failed ↦ rw failed (filter-All P p xs h.1)
]

-- What holds of every kept element holds of every element that passes the test.
pub filter-All⁻ {ℓ κ} :
    {A : Type ℓ} (P : A → Type κ) (p : A → Bool) (xs : List A)
    → All P (filter p xs)
    → All (λ x. p x ≡ true → P x) xs
filter-All⁻ P p [] h = tt
filter-All⁻ P p (x ∷ xs) h = elim (Bool-cases (p x)) [
  | inl passed ↦
      let h' : P x × All P (filter p xs) = rw passed at h in ((λ _. h'.0), filter-All⁻ P p xs h'.1)
  | inr failed ↦ let h' : All P (filter p xs) = rw failed at h in ((λ q. cc), filter-All⁻ P p xs h')
]

module _ {ℓ κ} {A : Type ℓ} (key : A → ℕ) (P : A → Type κ) where
  min_from-All : (best : A) (xs : List A) → P best → All P xs → P (min_from key best xs)
  unfolding min_from
  min_from-All best [] h hs = h
  min_from-All best (x ∷ xs) h hs = elim (Bool-cases (ltb (key x) (key best))) [
    | inl less ↦ rw less (min_from-All x xs hs.0 hs.1)
    | inr more ↦ rw more (min_from-All best xs h hs.1)
  ]

  pub min_by-All : (xs : List A) (x : A) → All P xs → min_by key xs ≡ some x → P x
  unfolding min_by
  min_by-All [] x h e = cc
  min_by-All (y ∷ ys) x h e = subst P (some-injective _ x e) (min_from-All y ys h.0 h.1)

module _ {ℓ} {A : Type ℓ} (key : A → ℕ) where
  min_from-le : (best : A) (xs : List A) → key (min_from key best xs) ≤ key best
  unfolding min_from
  min_from-le best [] = omega arith
  min_from-le best (x ∷ xs) = elim (Bool-cases (ltb (key x) (key best))) [
    | inl less ↦ rw less (ground (arith, min_from-le x xs))
    | inr more ↦ rw more (min_from-le best xs)
  ]

  min_from-least : (best : A) (xs : List A) → All (λ y. key (min_from key best xs) ≤ key y) xs
  unfolding min_from
  min_from-least best [] = tt
  min_from-least best (x ∷ xs) =
      let z = if ltb (key x) (key best) then x else best in
      let below : key z ≤ key x = ground arith in
      (omega (arith, min_from-le z xs), min_from-least z xs)

  -- The least element by the key is no more than any.
  pub min_by-least : (xs : List A) (x : A) → min_by key xs ≡ some x → All (λ y. key x ≤ key y) xs
  unfolding min_by
  min_by-least [] x e = tt
  min_by-least (y ∷ ys) x e =
      subst (λ z. All (λ w. key z ≤ key w) (y ∷ ys)) (some-injective _ x e)
        (min_from-le y ys, min_from-least y ys)

  pub min_by-none : (xs : List A) → min_by key xs ≡ none → All (λ _. ⊥) xs
  unfolding min_by
  min_by-none [] e = tt
  min_by-none (y ∷ ys) e = cc

-- The elements that a slice or a comprehension keeps.
pub length-map-take {ℓ κ} :
    {A : Type ℓ} {B : Type κ} (f : A → B) (n : ℕ) (xs : List A) → length (map f (take n xs)) ≤ n
length-map-take f zero xs = omega arith
length-map-take f (suc n) [] = omega arith
length-map-take f (suc n) (x ∷ xs) = omega (arith, length-map-take f n xs)

pub take-All {ℓ κ} :
    {A : Type ℓ} (P : A → Type κ) (n : ℕ) (xs : List A) → All P xs → All P (take n xs)
take-All P zero xs h = tt
take-All P (suc n) [] h = tt
take-All P (suc n) (x ∷ xs) h = (h.0, take-All P n xs h.1)

pub All-map {ℓ κ ι} :
    {A : Type ℓ} {B : Type κ} (P : A → Type ι) (Q : B → Type ι) (f : A → B)
    → ((x : A) → P x → Q (f x))
    → (xs : List A) → All P xs
    → All Q (map f xs)
All-map P Q f step [] h = tt
All-map P Q f step (x ∷ xs) h = (step x h.0, All-map P Q f step xs h.1)

pub All-filter {ℓ} : {A : Type ℓ} (p : A → Bool) (xs : List A) → All (λ x. p x ≡ true) (filter p xs)
All-filter p [] = tt
All-filter p (x ∷ xs) = elim (Bool-cases (p x)) [
  | inl passed ↦ rw passed (passed, All-filter p xs)
  | inr failed ↦ rw failed (All-filter p xs)
]
