-- ===== src/Prelude/Integers.antt =====
-- Integers over the native numbers, and Go's signed 64-bit arithmetic on them.
use Prim.Native.Nat.{ℕ, zero, suc, ◌+◌, ◌-◌, ◌*◌, ◌%◌, ◌^◌, ◌<◌}
use mathlib.Core.Path.{◌≡◌, refl}
use mathlib.Core.Bool.{Bool, true, false}
use mathlib.Core.Option.{Option, none, some}
use mathlib.Core.List.{[], ◌∷◌}
use native.Mathlib.Omega.{arith}
use webhook_telegram_proxy.Prelude.Tests.{ltb, leb, ◌==◌, if◌then◌else◌}
use webhook_telegram_proxy.Prelude.Texts.{Text, decimal}
use webhook_telegram_proxy.Prelude.Spaces.{is_empty}

-- `negsuc n` is -(n + 1).
pub data ℤ : Type 0 where
  pos negsuc : ℕ → ℤ

abbrev pub is_positive : ℤ → Bool
is_positive (pos n) = ltb 0 n
is_positive (negsuc n) = false

-- the test `a < b`
abbrev pub less : ℤ → ℤ → Bool
less (pos a) (pos b) = ltb a b
less (pos a) (negsuc b) = false
less (negsuc a) (pos b) = true
less (negsuc a) (negsuc b) = ltb b a

-- the number of a positive or zero integer
abbrev pub natural : ℤ → ℕ
natural (pos n) = n
natural (negsuc n) = 0

-- the signed value of a 64-bit pattern
abbrev pub to_signed : ℕ → ℤ
to_signed n = if ltb n (2 ^ 63) then pos n else negsuc (2 ^ 64 - 1 - n)

-- `n + z` on 64-bit integers, for a length `n`: with a negative `z` it cannot overflow
abbrev pub plus_wrapped : ℕ → ℤ → ℤ
plus_wrapped n (pos m) = to_signed ((n + m) % 2 ^ 64)
plus_wrapped n (negsuc m) = if ltb m n then pos (n - 1 - m) else negsuc (m - n)

-- Multiplication by a positive factor, which wraps around.
unfoldable pub times_wrapped : ℤ → ℕ → ℤ
times_wrapped (pos n) factor = to_signed ((n * factor) % 2 ^ 64)
times_wrapped (negsuc n) factor = to_signed (2 ^ 64 - 1 - ((suc n * factor - 1) % 2 ^ 64))

pub times_wrapped-exact :
    (n factor : ℕ) → n * factor < 2 ^ 63 → times_wrapped (pos n) factor ≡ pos (n * factor)
unfolding times_wrapped
times_wrapped-exact n factor h = ground arith

pub natural-pos : (z : ℤ) → is_positive z ≡ true → pos (natural z) ≡ z
natural-pos (pos n) h = refl
natural-pos (negsuc n) h = cc

pub natural-positive : (z : ℤ) → is_positive z ≡ true → 0 < natural z
natural-positive (pos n) h = ground arith
natural-positive (negsuc n) h = cc

-- The value of a text of decimal digits, of which there is at least one.
digit_value : ℕ → Option ℕ
digit_value c = if ltb c b'0' then none else if ltb b'9' c then none else some (c - b'0')

add_digit : Option ℕ → Option ℕ → Option ℕ
add_digit (some n) (some d) = some (n * 10 + d)
add_digit _ _ = none

digits_value : Option ℕ → Text → Option ℕ
unfolding digit_value add_digit
digits_value total [] = total
digits_value total (c ∷ s) = digits_value (add_digit total (digit_value c)) s

unsigned : Text → Option ℕ
unfolding digits_value
unsigned s = if is_empty s then none else digits_value (some 0) s

-- a magnitude with its sign, in the range of int64
abbrev pub in_range_up : Option ℕ → Option ℤ
in_range_up none = none
in_range_up (some n) = if ltb n (2 ^ 63) then some (pos n) else none

abbrev pub in_range_down : Option ℕ → Option ℤ
in_range_down none = none
in_range_down (some zero) = some (pos 0)
in_range_down (some (suc n)) = if ltb n (2 ^ 63) then some (negsuc n) else none

-- strconv.Atoi, and strconv.ParseInt in base 10 with 64 bits, where there is no error
unfoldable pub parse_int : Text → Option ℤ
unfolding unsigned
parse_int [] = none
parse_int (c ∷ s) =
    if c == b'-'
    then in_range_down (unsigned s)
    else if c == b'+'
    then in_range_up (unsigned s)
    else in_range_up (unsigned (c ∷ s))

-- `%d` of an integer
abbrev pub decimal_int : ℤ → Text
decimal_int (pos n) = decimal n
decimal_int (negsuc n) = b'-' ∷ decimal (suc n)

-- the tests `a == n` and `a >= n` against a positive literal
abbrev pub is_int : ℤ → ℕ → Bool
is_int (pos a) n = a == n
is_int (negsuc a) n = false

abbrev pub at_least : ℤ → ℕ → Bool
at_least (pos a) n = leb n a
at_least (negsuc a) n = false
