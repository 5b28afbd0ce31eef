-- ===== src/Telegram/Redact/Hidden.antt =====
-- A redacted text does not contain the token.
use webhook_telegram_proxy.Prelude.{
  sym, subst, ℕ, zero, suc, ◌-◌, Bool, true, false, ◌||◌, [], ◌∷◌, ◌++◌, ◌≡◌, refl, arith, Text,
  codes, length, any, ◌==◌, is_empty, has_prefix, contains, Bool-cases, inl, inr,
}
use webhook_telegram_proxy.Telegram.Redact.{redacted, replace_from, redact, token_replacers}

abbrev is_bracket : ℕ → Bool
is_bracket c = c == b'[' || c == b']'

abbrev is_colon : ℕ → Bool
is_colon c = c == b':'

-- A token has a colon and no bracket, as Telegram's tokens do.
abbrev pub IsToken : Text → Type 0
IsToken t = (any is_bracket t ≡ false) × (any is_colon t ≡ true)

head-bracket :
    (c : ℕ) (t : Text)
    → any is_bracket (c ∷ t) ≡ false
    → (is_bracket c ≡ false) × (any is_bracket t ≡ false)
head-bracket c t h = ground arith

has_prefix-cons :
    (c d : ℕ) (s t : Text) → has_prefix (c ∷ s) (d ∷ t) ≡ true → (c ≡ d) × (has_prefix s t ≡ true)
unfolding has_prefix
has_prefix-cons c d s t h = ground arith

cons-has_prefix :
    (c d : ℕ) (s t : Text) → c ≡ d → has_prefix s t ≡ true → has_prefix (c ∷ s) (d ∷ t) ≡ true
unfolding has_prefix
cons-has_prefix c d s t e h = ground arith

-- a replacement begins with a bracket
bracket-first :
    (d : ℕ) (t s : Text)
    → any is_bracket (d ∷ t) ≡ false
    → has_prefix (redacted ++ s) (d ∷ t) ≡ true
    → ⊥
bracket-first d t s clean h =
    let (same, _) = has_prefix-cons b'[' d _ t h in
    let (clear, _) = head-bracket d t clean in let bracket : is_bracket b'[' ≡ true = refl in cc

-- what the replacement does to a text, by whether a match begins it
replaced-cons :
    (old : Text) (c : ℕ) (s : Text)
    → has_prefix (c ∷ s) old ≡ true
    → replace_from old redacted 0 (c ∷ s) ≡ redacted ++ replace_from old redacted (length old - 1) s
unfolding replace_from
replaced-cons old c s h = rw h refl

kept-cons :
    (old : Text) (c : ℕ) (s : Text)
    → has_prefix (c ∷ s) old ≡ false
    → replace_from old redacted 0 (c ∷ s) ≡ c ∷ replace_from old redacted 0 s
unfolding replace_from
kept-cons old c s h = rw h refl

-- a prefix without brackets was there before the replacement
prefix-kept :
    (old s t : Text)
    → any is_bracket t ≡ false
    → has_prefix (replace_from old redacted 0 s) t ≡ true
    → has_prefix s t ≡ true
unfolding has_prefix replace_from
prefix-kept old s [] clean h = refl
prefix-kept old [] (d ∷ t) clean h = h
prefix-kept old (c ∷ s) (d ∷ t) clean h = elim (Bool-cases (has_prefix (c ∷ s) old)) [
  | inl found ↦ absurd (bracket-first d t _ clean (rw (replaced-cons old c s found) at h))
  | inr kept ↦
      let (same, rest) = has_prefix-cons c d _ t (rw (kept-cons old c s kept) at h) in
      cons-has_prefix c d s t same (prefix-kept old s t (head-bracket d t clean).1 rest)
]

-- no token begins inside the replacement
later-colon :
    (x : ℕ) (xs t : Text)
    → any is_colon (x ∷ xs) ≡ false
    → any is_colon (x ∷ t) ≡ true
    → (any is_colon xs ≡ false) × (any is_colon t ≡ true)
later-colon x xs t plain colon = ground arith

inside :
    (xs y t : Text)
    → any is_bracket t ≡ false
    → any is_colon t ≡ true
    → any is_colon xs ≡ false
    → has_prefix (xs ++ (b']' ∷ y)) t ≡ true
    → ⊥
inside xs y [] clean colon plain h = cc
inside [] y (d ∷ t) clean colon plain h =
    let (same, _) = has_prefix-cons b']' d y t h in
    let (clear, _) = head-bracket d t clean in let bracket : is_bracket b']' ≡ true = refl in cc
inside (x ∷ xs) y (d ∷ t) clean colon plain h =
    let (same, rest) = has_prefix-cons x d _ t h in
    let (plain', colon') =
      later-colon x xs t plain (subst (λ c. any is_colon (c ∷ t) ≡ true) (sym same) colon) in
    inside xs y t (head-bracket d t clean).1 colon' plain' rest

contains-cons :
    (c : ℕ) (s t : Text)
    → (has_prefix (c ∷ s) t ≡ true → ⊥)
    → contains s t ≡ false
    → contains (c ∷ s) t ≡ false
unfolding contains
contains-cons c s t no_prefix h = elim (Bool-cases (has_prefix (c ∷ s) t)) [
  | inl found ↦ absurd (no_prefix found)
  | inr none ↦ rw none h
]

any-tail : (x : ℕ) (xs : Text) → any is_colon (x ∷ xs) ≡ false → any is_colon xs ≡ false
any-tail x xs h = ground arith

behind-replacement :
    (xs y t : Text)
    → IsToken t
    → any is_colon xs ≡ false
    → contains y t ≡ false
    → contains (xs ++ (b']' ∷ y)) t ≡ false
behind-replacement [] y t (clean, colon) plain h =
    contains-cons b']' y t (inside [] y t clean colon plain) h
behind-replacement (x ∷ xs) y t (clean, colon) plain h =
    contains-cons x _ t (inside (x ∷ xs) y t clean colon plain)
      (behind-replacement xs y t (clean, colon) (any-tail x xs plain) h)

still-none :
    (t : Text) (c : ℕ) (s : Text)
    → IsToken t
    → has_prefix (c ∷ s) t ≡ false
    → has_prefix (c ∷ replace_from t redacted 0 s) t ≡ true
    → ⊥
still-none [] c s (clean, colon) none h = cc
still-none (d ∷ t) c s (clean, colon) none h =
    let (same, rest) = has_prefix-cons c d _ t h in
    let found =
      cons-has_prefix c d s t same (prefix-kept (d ∷ t) s t (head-bracket d t clean).1 rest) in
    cc

-- whatever is passed over, no token is left
replace_from-hides :
    (t : Text) (skip : ℕ) (s : Text)
    → IsToken t
    → contains (replace_from t redacted skip s) t ≡ false
unfolding replace_from contains
replace_from-hides [] skip s (clean, colon) = cc
replace_from-hides (d ∷ t) skip [] token = refl
replace_from-hides t (suc skip) (c ∷ s) token = replace_from-hides t skip s token
replace_from-hides t zero (c ∷ s) token = elim (Bool-cases (has_prefix (c ∷ s) t)) [
  | inl found ↦ rw (replaced-cons t c s found) (
      behind-replacement (codes "[REDACTED") _ t token refl
        (replace_from-hides t (length t - 1) s token))
  | inr kept ↦
      rw (kept-cons t c s kept)
        (contains-cons c _ t (still-none t c s token kept) (replace_from-hides t zero s token))
]

token-given : (t : Text) → IsToken t → is_empty t ≡ false
token-given [] (clean, colon) = cc
token-given (d ∷ t) token = refl

-- a text without a colon
has_prefix-colon :
    (s t : Text) → any is_colon s ≡ false → any is_colon t ≡ true → has_prefix s t ≡ true → ⊥
unfolding has_prefix
has_prefix-colon s [] plain colon h = cc
has_prefix-colon [] (d ∷ t) plain colon h = cc
has_prefix-colon (c ∷ s) (d ∷ t) plain colon h =
    let (same, rest) = has_prefix-cons c d s t h in
    let (plain', colon') =
      later-colon c s t plain (subst (λ x. any is_colon (x ∷ t) ≡ true) (sym same) colon) in
    has_prefix-colon s t plain' colon' rest

pub contains-colon : (s t : Text) → any is_colon s ≡ false → IsToken t → contains s t ≡ false
unfolding contains
contains-colon [] t plain token = token-given t token
contains-colon (c ∷ s) t plain token =
    contains-cons c s t (has_prefix-colon (c ∷ s) t plain token.1)
      (contains-colon s t (any-tail c s plain) token)

redact_one-hides :
    (t s : Text)
    → IsToken t
    → contains (redact (record { old = t; new = redacted } ∷ []) s) t ≡ false
unfolding redact
redact_one-hides t s token = elim (Bool-cases (contains s t)) [
  | inl found ↦ rw (token-given t token, found) (replace_from-hides t 0 s token)
  | inr clean ↦ rw (token-given t token, clean) clean
]

-- without a proxy
pub redact-hides : (t s : Text) → IsToken t → contains (redact (token_replacers t) s) t ≡ false
redact-hides t s token = rw (token-given t token) (redact_one-hides t s token)
