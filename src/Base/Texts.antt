-- ===== src/Base/Texts.antt =====
-- Lists of texts: joined, and sorted.
use Prim.Native.String.{String, ◌++◌ as ◌<>◌}
use mathlib.Core.Path.{◌≡◌, refl}
use mathlib.Core.Bool.{◌||◌}
use mathlib.Core.List.{List, [], ◌∷◌}
use native.Mathlib.Omega.{arith}
use text.Mathlib.Text.{◌==◌ as text_eq}
use keyhole_sdk.Base.Lists.{elem}
use keyhole_sdk.Base.Tests.{if◌then◌else◌}
use keyhole_sdk.Base.Text.{text_le}

-- `sep.join(texts)`
abbrev pub join : String → List String → String
join sep [] = ""
join sep (s ∷ []) = s
join sep (s ∷ t ∷ ts) = s <> (sep <> join sep (t ∷ ts))

unfoldable pub insert_text : String → List String → List String
insert_text s [] = s ∷ []
insert_text s (t ∷ ts) = let rest = insert_text s ts in if text_le s t then s ∷ t ∷ ts else t ∷ rest

-- `sorted(texts)`
unfoldable pub sorted_texts : List String → List String
unfolding insert_text
sorted_texts [] = []
sorted_texts (s ∷ ss) = insert_text s (sorted_texts ss)

pub elem-insert_text :
    (k s : String) (ts : List String) → elem k (insert_text s ts) ≡ (text_eq k s || elem k ts)
unfolding insert_text
elem-insert_text k s [] = refl
elem-insert_text k s (t ∷ ts) = ground (arith, elem-insert_text k s ts)

pub elem-sorted_texts : (k : String) (ts : List String) → elem k (sorted_texts ts) ≡ elem k ts
unfolding sorted_texts
elem-sorted_texts k [] = refl
elem-sorted_texts k (t ∷ ts) =
    ground (arith, elem-sorted_texts k ts, elem-insert_text k t (sorted_texts ts))
