-- ===== src/Base/Text.antt =====
-- Python's `str`, as far as the program walks it: white space at the ends, and substrings.
use Prim.Native.Nat.{ℕ}
use Prim.Native.Char.{Char, code}
use Prim.Native.String.{String, ◌++◌}
use mathlib.Core.Option.{Option, none, some}
use mathlib.Core.Bool.{Bool, true, false, ◌||◌, ◌&&◌}
use mathlib.Core.Path.{◌≡◌, refl}
use text.Mathlib.Text.{starts_with}
use vpn_controll_app.Base.Tests.{if◌then◌else◌, leb, ◌==◌, nat_Eq, string_Eq}

-- `str.isspace` of one character.
abbrev pub is_space : ℕ → Bool
is_space c =
    (leb 9 c && leb c 13)
    || (leb 28 c && leb c 32)
    || c == 0x85
    || c == 0xa0
    || c == 0x1680
    || (leb 0x2000 c && leb c 0x200a)
    || c == 0x2028
    || c == 0x2029
    || c == 0x202f
    || c == 0x205f
    || c == 0x3000

unfoldable pub lstrip : (ℕ → Bool) → String → String
lstrip p String.[] = String.[]
lstrip p (String.◌∷◌ c s) = if p (code c) then lstrip p s else String.◌∷◌ c s

-- One character put before a text that is already stripped on the right.
abbrev pub keep : Bool → Char → String → String
keep drop c String.[] = if drop then String.[] else String.◌∷◌ c String.[]
keep drop c (String.◌∷◌ d s) = String.◌∷◌ c (String.◌∷◌ d s)

unfoldable pub rstrip : (ℕ → Bool) → String → String
rstrip p String.[] = String.[]
rstrip p (String.◌∷◌ c s) = keep (p (code c)) c (rstrip p s)

-- `s.strip()`
unfoldable pub strip : String → String
unfolding lstrip rstrip
strip s = rstrip is_space (lstrip is_space s)

-- `part in s`
unfoldable pub contains : String → String → Bool
contains part String.[] = part == ""
contains part (String.◌∷◌ c s) = starts_with (String.◌∷◌ c s) part || contains part s

-- `if s:` of a text.
abbrev pub is_empty : String → Bool
is_empty String.[] = true
is_empty (String.◌∷◌ _ _) = false

strip_name : strip "  amsterdam 1 " ≡ "amsterdam 1"
unfolding strip
strip_name = refl

abbrev pub newline : String
newline = "\n"

-- `s + t`
abbrev pub concat : String → String → String
concat s t = s ++ t

-- `if not x` of an optional text.
abbrev pub is_blank : Option String → Bool
is_blank none = true
is_blank (some s) = is_empty s

-- `value.removeprefix(prefix)` where `value` starts with the prefix.
unfoldable pub remove_prefix : String → String → String
remove_prefix String.[] s = s
remove_prefix (String.◌∷◌ _ p) String.[] = String.[]
remove_prefix (String.◌∷◌ _ p) (String.◌∷◌ _ s) = remove_prefix p s
