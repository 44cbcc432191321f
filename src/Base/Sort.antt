-- ===== src/Base/Sort.antt =====
-- `sorted` and `min` with a key: both are stable, so ties keep the order of the list.
use Prim.Native.Nat.{ℕ, ◌≤◌}
use mathlib.Core.Logic.{inl, inr}
use native.Mathlib.Omega.{arith}
use mathlib.Core.List.{List, [], ◌∷◌}
use mathlib.Core.Option.{Option, none, some}
use vpn_controll_app.Base.Tests.{if◌then◌else◌, ltb, leb, Bool-cases}
use vpn_controll_app.Base.Lists.{All}

module _ {ℓ} {A : Type ℓ} (key : A → ℕ) where
  unfoldable pub insert_up : A → List A → List A
  insert_up x [] = x ∷ []
  insert_up x (y ∷ ys) = if leb (key x) (key y) then x ∷ y ∷ ys else y ∷ insert_up x ys

  unfoldable pub sorted : List A → List A
  sorted [] = []
  sorted (x ∷ xs) = insert_up x (sorted xs)

  unfoldable pub insert_down : A → List A → List A
  insert_down x [] = x ∷ []
  insert_down x (y ∷ ys) = if leb (key y) (key x) then x ∷ y ∷ ys else y ∷ insert_down x ys

  -- `sorted(…, reverse=True)`
  unfoldable pub sorted_reverse : List A → List A
  sorted_reverse [] = []
  sorted_reverse (x ∷ xs) = insert_down x (sorted_reverse xs)

  unfoldable pub min_from : A → List A → A
  min_from best [] = best
  min_from best (x ∷ xs) = min_from (if ltb (key x) (key best) then x else best) xs

  -- The first element whose key is least.
  unfoldable pub min_by : List A → Option A
  min_by [] = none
  min_by (x ∷ xs) = some (min_from x xs)

-- A predicate of all elements survives sorting, filtering, and taking the first.
module _ {ℓ κ} {A : Type ℓ} (key : A → ℕ) (P : A → Type κ) where
  insert_up-All : (x : A) (xs : List A) → P x → All P xs → All P (insert_up key x xs)
  unfolding insert_up
  insert_up-All x [] h hs = (h, tt)
  insert_up-All x (y ∷ ys) h hs = elim (Bool-cases (leb (key x) (key y))) [
    | inl before ↦ rw before (h, hs)
    | inr after ↦ rw after (hs.0, insert_up-All x ys h hs.1)
  ]

  pub sorted-All : (xs : List A) → All P xs → All P (sorted key xs)
  unfolding sorted
  sorted-All [] h = tt
  sorted-All (x ∷ xs) h = insert_up-All x (sorted key xs) h.0 (sorted-All xs h.1)

  insert_up-All⁻ : (x : A) (xs : List A) → All P (insert_up key x xs) → P x × All P xs
  unfolding insert_up
  insert_up-All⁻ x [] h = h
  insert_up-All⁻ x (y ∷ ys) h = elim (Bool-cases (leb (key x) (key y))) [
    | inl before ↦ rw before at h
    | inr after ↦
        let h' : P y × All P (insert_up key x ys) = rw after at h in
        let r = insert_up-All⁻ x ys h'.1 in (r.0, (h'.0, r.1))
  ]

  pub All-of_sorted : (xs : List A) → All P (sorted key xs) → All P xs
  unfolding sorted
  All-of_sorted [] h = tt
  All-of_sorted (x ∷ xs) h =
      let r = insert_up-All⁻ x (sorted key xs) h in (r.0, All-of_sorted xs r.1)

-- The head of a sorted list is least.
module _ {ℓ} {A : Type ℓ} (key : A → ℕ) where
  abbrev pub IsSorted : List A → Type 0
  IsSorted [] = Unit
  IsSorted (x ∷ xs) = All (λ y. key x ≤ key y) xs × IsSorted xs

  All-le :
      (a b : A) (xs : List A)
      → key a ≤ key b
      → All (λ y. key b ≤ key y) xs
      → All (λ y. key a ≤ key y) xs
  All-le a b [] h hs = tt
  All-le a b (x ∷ xs) h hs = (omega arith, All-le a b xs h hs.1)

  insert_up-IsSorted : (x : A) (xs : List A) → IsSorted xs → IsSorted (insert_up key x xs)
  unfolding insert_up
  insert_up-IsSorted x [] h = (tt, tt)
  insert_up-IsSorted x (y ∷ ys) h = elim (Bool-cases (leb (key x) (key y))) [
    | inl before ↦ rw before ((ground arith, All-le x y ys (ground arith) h.0), h)
    | inr after ↦ rw after (
      insert_up-All key (λ z. key y ≤ key z) x ys (ground arith) h.0,
      insert_up-IsSorted x ys h.1,
    )
  ]

  pub sorted-IsSorted : (xs : List A) → IsSorted (sorted key xs)
  unfolding sorted
  sorted-IsSorted [] = tt
  sorted-IsSorted (x ∷ xs) = insert_up-IsSorted x (sorted key xs) (sorted-IsSorted xs)
