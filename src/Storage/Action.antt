-- ===== src/Storage/Action.antt =====
-- A method call: state and exceptions. What was written before a raise stays written.
use vpn_controll_app.Base.{
  ℕ, suc, Bool, Option, none, some, if◌then◌else◌, ◌≡◌, refl, ap, ◌⊎◌, inl, inr,
}
use vpn_controll_app.Errors.{Error}
use vpn_controll_app.Storage.State.{Store}

pub data Result {ℓ} (A : Type ℓ) : Type ℓ where
  ok : A → Result A
  err : Error → Result A

abbrev pub Action {ℓ} : Type ℓ → Type ℓ
Action A = Store → Result A × Store

module _ {ℓ} {A : Type ℓ} where
  abbrev pub pure : A → Action A
  pure a s = (ok a, s)

  abbrev pub raise : Error → Action A
  raise e s = (err e, s)

  abbrev pub gets : (Store → A) → Action A
  gets f s = (ok (f s), s)

  -- `if x is None: raise e`
  abbrev pub or_raise : Option A → Error → Action A
  or_raise none e = raise e
  or_raise (some a) e = pure a

  -- A question to the outside: its answer depends on how many were put before.
  abbrev pub ask : (ℕ → A) → Action A
  ask f s = (ok (f s.asked), record s { asked = suc s.asked })

  -- `try: m except …: handler`
  abbrev pub catch : Action A → (Error → Action A) → Action A
  catch m h s = let (r, t) = m s in elim r [ ok a ↦ (ok a, t) | err e ↦ h e t ]

infixl 5 ◌>>=◌ ◌>>◌
abbrev pub ◌>>=◌ {ℓ κ} : {A : Type ℓ} {B : Type κ} → Action A → (A → Action B) → Action B
◌>>=◌ m f s = let (r, t) = m s in elim r [ ok a ↦ f a t | err e ↦ (err e, t) ]

abbrev pub ◌>>◌ {ℓ κ} : {A : Type ℓ} {B : Type κ} → Action A → Action B → Action B
m >> k = m >>= λ _. k

abbrev pub modify : (Store → Store) → Action (Unit {0})
modify f s = (ok tt, f s)

abbrev pub raise_if : Bool → Error → Action (Unit {0})
raise_if c e s = (if c then err e else ok tt, s)

abbrev pub skip : Action (Unit {0})
skip s = (ok tt, s)

-- `if c: m`
abbrev pub when : Bool → Action (Unit {0}) → Action (Unit {0})
when c m = if c then m else skip

-- A bind, once its first call is known.
module _ {ℓ κ} {A : Type ℓ} {B : Type κ} (m : Action A) (f : A → Action B) (s : Store) where
  pub bind_ok : {a : A} {t : Store} → m s ≡ (ok a, t) → (m >>= f) s ≡ f a t
  bind_ok h =
      ap
        (λ (p : Result A × Store). elim p.0 as (λ _. Result B × Store) [
          | ok a ↦ f a p.1
          | err e ↦ (err e, p.1)
        ])
        h

  pub bind_err : {e : Error} {t : Store} → m s ≡ (err e, t) → (m >>= f) s ≡ (err e, t)
  bind_err h =
      ap
        (λ (p : Result A × Store). elim p.0 as (λ _. Result B × Store) [
          | ok a ↦ f a p.1
          | err e ↦ (err e, p.1)
        ])
        h

-- A call that only reads returns or raises in the state that it found.
pub reads_cases {ℓ} :
    {A : Type ℓ} (m : Action A) (s : Store)
    → (m s).1 ≡ s
    → ((a : A) × (m s ≡ (ok a, s))) ⊎ ((e : Error) × (m s ≡ (err e, s)))
reads_cases {A} m s h = go (m s).0 refl
  where
    go :
        (r : Result A)
        → (m s).0 ≡ r
        → ((a : A) × (m s ≡ (ok a, s))) ⊎ ((e : Error) × (m s ≡ (err e, s)))
    go (ok a) q = inl (a, λ i. (q i, h i))
    go (err e) q = inr (e, λ i. (q i, h i))
