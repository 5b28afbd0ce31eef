-- ===== src/Prelude/Texts.antt =====
-- Text as a list of Unicode code points (Go's runes). Identifiers that the program only compares
-- are native strings; what it measures, trims, sorts or joins is a `Text`.
use Prim.Native.Nat.{ℕ, zero, suc, ◌+◌, ◌/◌, ◌%◌}
use Prim.Native.Char.{code}
use Prim.Native.String.{String}
use mathlib.Core.Bool.{Bool, true, false}
use mathlib.Core.Path.{◌≡◌, refl}
use mathlib.Core.Logic.{inl, inr, ◌↔◌}
use mathlib.Core.List.{List, [], ◌∷◌}
use native.Mathlib.Omega.{arith}
use webhook_telegram_proxy.Prelude.Lists.{All}
use webhook_telegram_proxy.Prelude.Tests.{Bool-cases, ◌==◌, ltb, if◌then◌else◌}

abbrev pub Text : Type 0
Text = List ℕ

abbrev pub codes : String → Text
codes String.[] = []
codes (String.◌∷◌ c s) = code c ∷ codes s

unfoldable pub text_eq : Text → Text → Bool
text_eq [] [] = true
text_eq (c ∷ s) (d ∷ t) = let rest = text_eq s t in if c == d then rest else false
text_eq _ _ = false

pub text_eq_iff : (s t : Text) → (text_eq s t ≡ true) ↔ (s ≡ t)
unfolding text_eq
text_eq_iff [] [] = ground arith
text_eq_iff (c ∷ s) (d ∷ t) = ground (arith, text_eq_iff s t)
text_eq_iff _ _ = ground arith

-- The decimal digits of a number; one unit of fuel for each digit, and a number has no more digits
-- than its value plus one.
digits : ℕ → ℕ → Text → Text
digits zero n out = out
digits (suc fuel) n out =
    let d = (b'0' + n % 10) ∷ out in
    let more = digits fuel (n / 10) d in if ltb n 10 then d else more

unfoldable pub decimal : ℕ → Text
unfolding digits
decimal n = digits (suc n) n []

decimal_404 : decimal 404 ≡ codes "404"
unfolding decimal
decimal_404 = refl

module _ {ℓ} (P : ℕ → Type ℓ) (digit : (n : ℕ) → P (b'0' + n % 10)) where
  All-digits : (fuel n : ℕ) (out : Text) → All P out → All P (digits fuel n out)
  unfolding digits
  All-digits zero n out h = h
  All-digits (suc fuel) n out h = elim (Bool-cases (ltb n 10)) [
    | inl last ↦ rw last (digit n, h)
    | inr more ↦ rw more (All-digits fuel (n / 10) _ (digit n, h))
  ]

  -- what holds of every digit holds of every character of a number
  pub All-decimal : (n : ℕ) → All P (decimal n)
  unfolding decimal
  All-decimal n = All-digits (suc n) n [] tt
