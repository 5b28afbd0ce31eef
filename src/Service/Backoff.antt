-- ===== src/Service/Backoff.antt =====
-- `backoff` of internal/service/delivery_service.go. A time.Duration is an int64, kept here as its
-- bit pattern: a number below 2 ^ 64 that stands for a negative duration from 2 ^ 63 on.
use native.Mathlib.Nat.{pow-succ', pow-zero, pow-le-pow_right, mul_assoc}
use webhook_telegram_proxy.Prelude.{
  ap, not, ◌&&◌, ℕ, zero, suc, ◌*◌, ◌-◌, ◌%◌, ◌^◌, ◌≤◌, ◌<◌, Bool, ◌||◌, ◌≡◌, arith, ltb, leb, ◌==◌,
  min, if◌then◌else◌,
}

abbrev pub int64_mod : ℕ
int64_mod = 2 ^ 64

abbrev pub max_int64 : ℕ
max_int64 = 2 ^ 63 - 1

-- `delay *= 2`
double : ℕ → ℕ
double delay = (delay * 2) % int64_mod

-- `delay <= 0`
abbrev is_nonpositive : ℕ → Bool
is_nonpositive delay = delay == 0 || ltb max_int64 delay

-- `delay >= max`, for a `max` that is not negative
abbrev is_capped : ℕ → ℕ → Bool
is_capped delay max = leb max delay && not (ltb max_int64 delay)

-- The rounds of the loop that are left; the last clause is what follows the loop.
double_up : ℕ → ℕ → ℕ → ℕ
double_up zero delay max = if ltb max delay then max else delay
double_up (suc rounds) delay max =
    let next = double delay in
    let rest = double_up rounds next max in
    if is_capped next max || is_nonpositive next then max else rest

unfoldable pub backoff : ℕ → ℕ → ℕ → ℕ
unfolding double_up double
backoff zero base max = base
backoff (suc rounds) base max = double_up rounds base max

-- The delay without a bound on its size: base * 2 ^ rounds, capped.
abbrev pub exponential : ℕ → ℕ → ℕ → ℕ
exponential rounds base max = min (base * 2 ^ rounds) max

-- once at the cap, always at the cap
exponential-suc :
    (rounds base max : ℕ) → exponential (suc rounds) base max ≡ exponential rounds (base * 2) max
exponential-suc rounds base max = ap (λ n. min n max) (rw (pow-succ', ← mul_assoc))

at_cap : (rounds delay max : ℕ) → max ≤ delay → exponential rounds delay max ≡ max
at_cap rounds delay max h =
    let positive : 0 < 2 ^ rounds =
      pow-le-pow_right {n = 2} (omega arith) {i = 0} {j = rounds} (omega arith) in
    grind arith

double_up-exponential :
    (rounds delay max : ℕ)
    → 0 < delay
    → delay ≤ max
    → max ≤ max_int64
    → double_up rounds delay max ≡ exponential rounds delay max
unfolding double_up double
double_up-exponential zero delay max pos le fits = ground (arith, pow-zero 2)
double_up-exponential (suc rounds) delay max pos le fits =
    rw exponential-suc
      (ground (arith, double_up-exponential rounds (delay * 2) max, at_cap rounds (delay * 2) max))

-- For a base delay that is positive and not above a cap that fits into 63 bits, the delay of an attempt
-- from the first on is the base doubled for each earlier attempt, cut at the cap.
pub backoff-exponential :
    (attempt base max : ℕ)
    → 0 < base
    → base ≤ max
    → max ≤ max_int64
    → backoff (suc attempt) base max ≡ exponential attempt base max
unfolding backoff
backoff-exponential attempt base max = double_up-exponential attempt base max

pub backoff_bounds :
    (attempt base max : ℕ)
    → 0 < base
    → base ≤ max
    → max ≤ max_int64
    → backoff attempt base max ≤ max
backoff_bounds zero base max pos le fits = unfold backoff in le
backoff_bounds (suc n) base max pos le fits =
    omega (arith, backoff-exponential n base max pos le fits)
