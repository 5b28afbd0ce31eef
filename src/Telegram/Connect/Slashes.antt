-- ===== src/Telegram/Connect/Slashes.antt =====
-- `strings.TrimRight(s, "/")`, which `normalizeBaseURL` of internal/telegram/client.go ends with.
use webhook_telegram_proxy.Prelude.{
  ℕ, zero, suc, Bool, true, false, ◌&&◌, [], ◌∷◌, ◌++◌, ◌≡◌, refl, ◌∙◌, ap, arith, inl, inr, Text,
  ◌==◌, is_empty, Bool-cases,
}
use webhook_telegram_proxy.Telegram.Connect.{trim_slashes}

abbrev pub ends_with_slash : Text → Bool
ends_with_slash [] = false
ends_with_slash (c ∷ []) = c == b'/'
ends_with_slash (c ∷ d ∷ s) = ends_with_slash (d ∷ s)

abbrev pub slashes : ℕ → Text
slashes zero = []
slashes (suc n) = b'/' ∷ slashes n

ends_with_slash-cons :
    (c : ℕ) (s : Text)
    → (c == b'/' && is_empty s) ≡ false
    → ends_with_slash s ≡ false
    → ends_with_slash (c ∷ s) ≡ false
ends_with_slash-cons c [] h e = ground arith
ends_with_slash-cons c (d ∷ s) h e = e

pub trim_slashes-no_slash : (s : Text) → ends_with_slash (trim_slashes s) ≡ false
unfolding trim_slashes
trim_slashes-no_slash [] = refl
trim_slashes-no_slash (c ∷ s) = elim (Bool-cases (c == b'/' && is_empty (trim_slashes s))) [
  | inl cut ↦ rw cut refl
  | inr kept ↦ rw kept (ends_with_slash-cons c (trim_slashes s) kept (trim_slashes-no_slash s))
]

abbrev pub Stripped : Text → Text → Type 0
Stripped s t = (n : ℕ) × (s ≡ t ++ slashes n)

one_more :
    (c : ℕ) (s rest : Text)
    → (c == b'/' && is_empty rest) ≡ true
    → Stripped s rest
    → Stripped (c ∷ s) []
one_more c s [] h (n, e) =
    let slash : c ≡ b'/' = ground arith in (suc n, ap (λ d. d ∷ s) slash ∙ ap (λ l. b'/' ∷ l) e)
one_more c s (d ∷ rest) h stripped = absurd (ground arith)

pub trim_slashes-Stripped : (s : Text) → Stripped s (trim_slashes s)
unfolding trim_slashes
trim_slashes-Stripped [] = (0, refl)
trim_slashes-Stripped (c ∷ s) = elim (Bool-cases (c == b'/' && is_empty (trim_slashes s))) [
  | inl cut ↦ rw cut (one_more c s (trim_slashes s) cut (trim_slashes-Stripped s))
  | inr kept ↦ rw kept (let (n, e) = trim_slashes-Stripped s in (n, ap (λ l. c ∷ l) e))
]
