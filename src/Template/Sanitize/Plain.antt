-- ===== src/Template/Sanitize/Plain.antt =====
-- A sanitized text has no character of HTML markup, and is not too long.
use webhook_telegram_proxy.Prelude.{
  any, ℕ, ◌-◌, ◌≤◌, Bool, false, ◌||◌, [], ◌∷◌, ◌≡◌, refl, arith, Text, codes, leb, ◌==◌, length,
  take, All, All-append, All-take, length-append, length-take, Bool-cases, inl, inr, trim_space,
  is_empty,
}
use webhook_telegram_proxy.Template.Sanitize.{escape_char, escape_string, cut_text, sanitize}

-- the characters that begin or end a tag or an attribute's value
abbrev pub is_markup : ℕ → Bool
is_markup c = c == b'<' || (c == b'>' || (c == b'"' || c == b'\''))

abbrev pub IsPlain : Text → Type 0
IsPlain text = All (λ c. is_markup c ≡ false) text

pub literal-IsPlain : (s : Text) → any is_markup s ≡ false → IsPlain s
literal-IsPlain [] h = tt
literal-IsPlain (c ∷ s) h = elim (Bool-cases (is_markup c)) [
  | inl marked ↦ absurd (let wrong = rw marked at h in cc)
  | inr plain ↦ let rest = rw plain at h in (plain, literal-IsPlain s rest)
]

escape_char-IsPlain : (c : ℕ) → IsPlain (escape_char c)
unfolding escape_char
escape_char-IsPlain c = ground arith

escape_string-IsPlain : (s : Text) → IsPlain (escape_string s)
unfolding escape_string
escape_string-IsPlain [] = tt
escape_string-IsPlain (c ∷ s) =
    All-append _ (escape_char c) (escape_string s) (escape_char-IsPlain c) (escape_string-IsPlain s)

cut_text-IsPlain : (s : Text) (limit : ℕ) → IsPlain s → IsPlain (cut_text s limit)
unfolding cut_text
cut_text-IsPlain s limit h = elim (Bool-cases (leb limit 1)) [
  | inl small ↦ rw small (All-take _ limit s h)
  | inr large ↦
      rw large
        (All-append _ (take (limit - 1) s) (codes "…") (All-take _ (limit - 1) s h) (refl, tt))
]

cut_text-length : (s : Text) (limit : ℕ) → length (cut_text s limit) ≤ limit
unfolding cut_text
cut_text-length s limit = elim (Bool-cases (leb limit 1)) [
  | inl small ↦ rw small (omega (arith, length-take limit s))
  | inr large ↦
      rw large
        (ground (arith, length-append (take (limit - 1) s) (codes "…"), length-take (limit - 1) s))
]

-- `sanitize` gives a text of at most `max_len` characters, in which no character is `<`, `>` or a
-- quotation mark.
pub sanitize_lem :
    (value : Text) (max_len : ℕ)
    → IsPlain (sanitize value max_len) × (length (sanitize value max_len) ≤ max_len)
unfolding sanitize
sanitize_lem value max_len =
    let escaped = escape_string (trim_space value) in
    elim (Bool-cases (is_empty (trim_space value))) [
      | inl blank ↦ rw blank (tt, omega arith)
      | inr text ↦ elim (Bool-cases (leb (length escaped) max_len)) [
        | inl fits ↦ rw (text, fits) (escape_string-IsPlain (trim_space value), ground arith)
        | inr long ↦
            rw (text, long)
              (
                cut_text-IsPlain escaped max_len (escape_string-IsPlain (trim_space value)),
                cut_text-length escaped max_len,
              )
      ]
    ]
