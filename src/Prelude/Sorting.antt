-- ===== src/Prelude/Sorting.antt =====
-- `sort.Strings` and `strings.Join`. Strings are ordered by code points, as their UTF-8 bytes are.
use mathlib.Core.Bool.{Bool, true, false}
use mathlib.Core.List.{List, [], ◌∷◌, ◌++◌}
use webhook_telegram_proxy.Prelude.Tests.{◌==◌, ltb, if◌then◌else◌}
use webhook_telegram_proxy.Prelude.Texts.{Text}

unfoldable pub text_leb : Text → Text → Bool
text_leb [] t = true
text_leb (c ∷ s) [] = false
text_leb (c ∷ s) (d ∷ t) =
    let rest = text_leb s t in if ltb c d then true else if c == d then rest else false

-- sort.Strings
unfoldable pub insert_text : Text → List Text → List Text
insert_text s [] = s ∷ []
insert_text s (t ∷ l) = let later = t ∷ insert_text s l in if text_leb s t then s ∷ t ∷ l else later

unfoldable pub sort_texts : List Text → List Text
unfolding insert_text
sort_texts [] = []
sort_texts (s ∷ l) = insert_text s (sort_texts l)

-- strings.Join
unfoldable pub join : Text → List Text → Text
join sep [] = []
join sep (s ∷ []) = s
join sep (s ∷ t ∷ l) = s ++ (sep ++ join sep (t ∷ l))
