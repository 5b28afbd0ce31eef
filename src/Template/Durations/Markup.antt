-- ===== src/Template/Durations/Markup.antt =====
-- A duration below a minute is printed with a character of HTML markup, every other one without.
use webhook_telegram_proxy.Prelude.{
  false, ℕ, ◌+◌, ◌-◌, ◌/◌, ◌%◌, ◌≤◌, ◌<◌, ◌++◌, ◌≡◌, refl, ◌↔◌, arith, Text, codes, decimal,
  All-decimal, ltb, ◌==◌, All-append, All-append-left, Bool-cases, inl, inr,
}
use webhook_telegram_proxy.Template.Sanitize.Plain.{literal-IsPlain, is_markup, IsPlain}
use webhook_telegram_proxy.Template.Durations.{
  minute, max_duration, time_sub, round_minute, compact_days, compact_hours, compact_minutes,
  compact_duration, since_time,
}

digit_plain : (n : ℕ) → is_markup (b'0' + n % 10) ≡ false
digit_plain n = ground arith

pub decimal-IsPlain : (n : ℕ) → IsPlain (decimal n)
decimal-IsPlain = All-decimal (λ c. is_markup c ≡ false) digit_plain

-- a number with its unit
unit-IsPlain : (n : ℕ) (rest : Text) → IsPlain rest → IsPlain (decimal n ++ rest)
unit-IsPlain n rest h = All-append _ (decimal n) rest (decimal-IsPlain n) h

compact_days-IsPlain : (days hours : ℕ) → IsPlain (compact_days days hours)
compact_days-IsPlain days hours = elim (Bool-cases (hours == 0)) [
  | inl none ↦ rw none (unit-IsPlain days (codes "d") (refl, tt))
  | inr some ↦ rw some (unit-IsPlain days _ (refl, unit-IsPlain hours (codes "h") (refl, tt)))
]

compact_hours-IsPlain : (hours minutes : ℕ) → IsPlain (compact_hours hours minutes)
compact_hours-IsPlain hours minutes = elim (Bool-cases (ltb hours 24)) [
  | inl short ↦ elim (Bool-cases (minutes == 0)) [
    | inl none ↦ rw (short, none) (unit-IsPlain hours (codes "h") (refl, tt))
    | inr some ↦
        rw (short, some) (unit-IsPlain hours _ (refl, unit-IsPlain minutes (codes "m") (refl, tt)))
  ]
  | inr long ↦ rw long (compact_days-IsPlain (hours / 24) (hours % 24))
]

compact_minutes-IsPlain : (total : ℕ) → IsPlain (compact_minutes total)
compact_minutes-IsPlain total = elim (Bool-cases (ltb total 60)) [
  | inl short ↦ rw short (unit-IsPlain total (codes "m") (refl, tt))
  | inr long ↦ rw long (compact_hours-IsPlain (total / 60) (total % 60))
]

pub compact_duration-IsPlain : (d : ℕ) → IsPlain (compact_duration d) ↔ (minute ≤ d)
unfolding compact_duration
compact_duration-IsPlain d = elim (Bool-cases (ltb d minute)) [
  | inl short ↦ rw short (λ p. absurd (let wrong = p.0 in cc), λ le. ground arith)
  | inr long ↦ rw long (λ p. ground arith, λ le. compact_minutes-IsPlain (round_minute d / minute))
]

-- For a start at or before the present, less than 2 ^ 63 nanoseconds ago and not at the zero time, the
-- text of `since_time` is free of markup characters exactly when a minute or more has passed.
pub since_time-IsPlain :
    (now value : ℕ)
    → 0 < value
    → value ≤ now
    → now - value ≤ max_duration
    → IsPlain (since_time now value) ↔ (minute ≤ now - value)
unfolding since_time
since_time-IsPlain now value pos le fits =
    let past : since_time now value ≡ compact_duration (time_sub now value) ++ codes " ago" =
      ground arith in
    let elapsed : time_sub now value ≡ now - value = omega arith in
    let same = compact_duration-IsPlain (now - value) in
    rw (past, elapsed)
      (
        λ p. same.0 (All-append-left _ (compact_duration (now - value)) (codes " ago") p),
        λ long.
            All-append _ (compact_duration (now - value)) (codes " ago") (same.1 long)
              (literal-IsPlain (codes " ago") refl),
      )
