-- ===== src/Base/Strip.antt =====
-- `strip` twice is `strip` once.
use Prim.Native.Nat.{ℕ}
use Prim.Native.Char.{Char, code}
use Prim.Native.String.{String}
use mathlib.Core.Path.{◌≡◌, refl, ap, ◌∙◌}
use mathlib.Core.Logic.{inl, inr}
use mathlib.Core.Bool.{Bool, false}
use vpn_controll_app.Base.Tests.{Bool-cases}
use vpn_controll_app.Base.Text.{is_space, lstrip, rstrip, strip, keep}

module _ (p : ℕ → Bool) where
  -- A text that does not begin with a character to be stripped.
  abbrev Begins : String → Type 0
  Begins String.[] = Unit
  Begins (String.◌∷◌ c s) = p (code c) ≡ false

  lstrip-Begins : (s : String) → Begins (lstrip p s)
  unfolding lstrip
  lstrip-Begins String.[] = tt
  lstrip-Begins (String.◌∷◌ c s) = elim (Bool-cases (p (code c))) [
    | inl space ↦ rw space (lstrip-Begins s)
    | inr other ↦ rw other other
  ]

  lstrip_same : (s : String) → Begins s → lstrip p s ≡ s
  unfolding lstrip
  lstrip_same String.[] h = refl
  lstrip_same (String.◌∷◌ c s) h = rw h refl

  keep-Begins : (c : Char) (s : String) → p (code c) ≡ false → Begins (keep (p (code c)) c s)
  keep-Begins c String.[] h = rw h h
  keep-Begins c (String.◌∷◌ d s) h = h

  rstrip-Begins : (s : String) → Begins s → Begins (rstrip p s)
  unfolding rstrip
  rstrip-Begins String.[] h = tt
  rstrip-Begins (String.◌∷◌ c s) h = keep-Begins c (rstrip p s) h

  rstrip-keep :
      (c : Char) (s : String)
      → rstrip p s ≡ s
      → rstrip p (keep (p (code c)) c s) ≡ keep (p (code c)) c s
  unfolding rstrip
  rstrip-keep c String.[] h = elim (Bool-cases (p (code c))) [
    | inl space ↦ rw space refl
    | inr other ↦ simp other refl
  ]
  rstrip-keep c (String.◌∷◌ d s) h = ap (keep (p (code c)) c) h

  rstrip_idem : (s : String) → rstrip p (rstrip p s) ≡ rstrip p s
  unfolding rstrip
  rstrip_idem String.[] = refl
  rstrip_idem (String.◌∷◌ c s) = rstrip-keep c (rstrip p s) (rstrip_idem s)

pub strip_idem : (s : String) → strip (strip s) ≡ strip s
unfolding strip
strip_idem s =
    ap (rstrip is_space)
      (lstrip_same is_space _ (rstrip-Begins is_space _ (lstrip-Begins is_space s)))
    ∙ rstrip_idem is_space (lstrip is_space s)
