-- ===== src/Prelude/Letters.antt =====
-- Letters as Go's `unicode` package has them, whose tables are parameters, and the tests of the
-- `strings` package on them.
use Prim.Native.Nat.{ℕ}
use mathlib.Core.Bool.{Bool, true, false}
use mathlib.Core.List.{[], ◌∷◌, map}
use webhook_telegram_proxy.Prelude.Tests.{◌==◌, if◌then◌else◌}
use webhook_telegram_proxy.Prelude.Texts.{Text}
use webhook_telegram_proxy.Prelude.Spaces.{is_empty}

-- unicode.ToLower, unicode.ToUpper, and whether two runes are equal under simple folding
pub record Unicode : Type 0 where
  pub lower : ℕ → ℕ
  pub upper : ℕ → ℕ
  pub same_fold : ℕ → ℕ → Bool

-- strings.ToLower, strings.ToUpper
abbrev pub to_lower : Unicode → Text → Text
to_lower u s = map u.lower s

abbrev pub to_upper : Unicode → Text → Text
to_upper u s = map u.upper s

-- strings.EqualFold
unfoldable pub equal_fold : Unicode → Text → Text → Bool
equal_fold u [] [] = true
equal_fold u (c ∷ s) (d ∷ t) =
    let rest = equal_fold u s t in if u.same_fold c d then rest else false
equal_fold u _ _ = false

-- strings.HasPrefix, strings.Contains
unfoldable pub has_prefix : Text → Text → Bool
has_prefix s [] = true
has_prefix [] (d ∷ t) = false
has_prefix (c ∷ s) (d ∷ t) = let rest = has_prefix s t in if c == d then rest else false

unfoldable pub contains : Text → Text → Bool
contains [] t = is_empty t
contains (c ∷ s) t = let rest = contains s t in if has_prefix (c ∷ s) t then true else rest
