-- ===== src/Base/Text.antt =====
-- Slices of texts, by code points, concatenation, and `str.strip`.
pub use Prim.Native.String.{◌++◌ as ◌<>◌}
use Prim.Native.Nat.{ℕ, zero, suc}
use Prim.Native.Char.{code}
use Prim.Native.String.{String, [], ◌∷◌}
use mathlib.Core.Bool.{Bool, true, false, ◌&&◌, ◌||◌, not}
use text.Mathlib.Text.{◌==◌ as text_eq}
use keyhole_sdk.Base.Tests.{leb, ◌==◌, truthy, if◌then◌else◌}

-- `text[:n]`
unfoldable pub take_chars : ℕ → String → String
take_chars zero s = []
take_chars (suc n) [] = []
take_chars (suc n) (c ∷ s) = c ∷ take_chars n s

-- `c.isspace()`, by the code points that Python lists.
unfoldable pub is_space : ℕ → Bool
is_space c =
    (leb 9 c && leb c 13)
    || (leb 28 c && leb c 32)
    || c == 133
    || c == 160
    || c == 5760
    || (leb 8192 c && leb c 8202)
    || c == 8232
    || c == 8233
    || c == 8239
    || c == 8287
    || c == 12288

unfoldable pub strip_left : String → String
strip_left [] = []
strip_left (c ∷ s) = let rest = strip_left s in if is_space (code c) then rest else c ∷ s

unfoldable pub strip_right : String → String
strip_right [] = []
strip_right (c ∷ s) =
    let rest = strip_right s in if is_space (code c) && not (truthy rest) then [] else c ∷ rest

-- `s.strip()`
unfoldable pub strip : String → String
unfolding strip_left strip_right is_space
strip s = strip_right (strip_left s)

abbrev pub is_prefix : String → String → Bool
is_prefix [] s = true
is_prefix (a ∷ t) [] = false
is_prefix (a ∷ t) (b ∷ s) = code a == code b && is_prefix t s

-- `t in s`
unfoldable pub is_within : String → String → Bool
is_within t [] = is_prefix t []
is_within t (c ∷ s) = is_prefix t (c ∷ s) || is_within t s

-- The text before the first `sep`, all of it where there is none: `s.split(sep)[0]`.
unfoldable pub before : String → String → String
before sep [] = []
before sep (c ∷ s) = let rest = before sep s in if is_prefix sep (c ∷ s) then [] else c ∷ rest

-- `s[n:]`
unfoldable pub drop_chars : ℕ → String → String
drop_chars zero s = s
drop_chars (suc n) [] = []
drop_chars (suc n) (c ∷ s) = drop_chars n s

-- The text after the first `sep`, which has `n` characters; no text where there is none.
unfoldable pub after : String → ℕ → String → String
unfolding drop_chars
after sep n [] = []
after sep n (c ∷ s) =
    let rest = after sep n s in if is_prefix sep (c ∷ s) then drop_chars n (c ∷ s) else rest

-- `s.replace(part, "")`, where `part` has `n + 1` characters and `skip` of them are still passed over.
unfoldable pub without : String → ℕ → ℕ → String → String
without part n skip [] = []
without part n (suc skip) (c ∷ s) = without part n skip s
without part n zero (c ∷ s) =
    let found = is_prefix part (c ∷ s) in
    let rest = without part n (if found then n else zero) s in if found then rest else c ∷ rest

-- `s.endswith(part)`
unfoldable pub ends_with : String → String → Bool
ends_with part [] = text_eq part []
ends_with part (c ∷ s) = text_eq part (c ∷ s) || ends_with part s

-- `s <= t`, by code points.
abbrev pub text_le : String → String → Bool
text_le [] t = true
text_le (a ∷ s) [] = false
text_le (a ∷ s) (b ∷ t) =
    let rest = text_le s t in if code a == code b then rest else leb (code a) (code b)
