-- ===== src/Base/Codes.antt =====
-- Texts as lists of code points, for code that looks at their characters.
use Prim.Native.Nat.{ℕ}
use Prim.Native.Char.{code}
use Prim.Native.String.{String}
use mathlib.Core.Bool.{Bool, true, false, ◌&&◌, ◌||◌}
use mathlib.Core.List.{List, [], ◌∷◌}
use keyhole_sdk.Base.Tests.{◌==◌, leb, if◌then◌else◌}
use keyhole_sdk.Base.Text.{is_space}

abbrev pub Codes : Type 0
Codes = List ℕ

-- The code points of a literal.
abbrev pub codes : String → Codes
codes String.[] = []
codes (String.◌∷◌ c s) = code c ∷ codes s

-- `s == t`
abbrev pub same_codes : Codes → Codes → Bool
same_codes [] [] = true
same_codes (a ∷ s) (b ∷ t) = a == b && same_codes s t
same_codes _ _ = false

abbrev pub is_digit : ℕ → Bool
is_digit c = leb 48 c && leb c 57

-- `[a-z0-9]`
abbrev pub is_alnum : ℕ → Bool
is_alnum c = (leb 97 c && leb c 122) || is_digit c

-- `s.lstrip()`
unfoldable pub strip_left_codes : Codes → Codes
strip_left_codes [] = []
strip_left_codes (c ∷ s) = let rest = strip_left_codes s in if is_space c then rest else c ∷ s

-- `s.rstrip()`
unfoldable pub strip_right_codes : Codes → Codes
strip_right_codes [] = []
strip_right_codes (c ∷ s) = keep c (strip_right_codes s)
  where
    keep : ℕ → Codes → Codes
    keep c [] = if is_space c then [] else c ∷ []
    keep c (d ∷ rest) = c ∷ d ∷ rest
