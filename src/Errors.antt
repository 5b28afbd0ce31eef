-- ===== src/Errors.antt =====
-- The errors of the Go code as data (the `Err…` sentinels of internal/store/sqlite.go,
-- `errRenderFatal` of internal/service/delivery_service.go, `APIError` of
-- internal/telegram/client.go) and the results of fallible calls.
use webhook_telegram_proxy.Prelude.{
  refl, ◌≡◌, Bool, true, false, Option, none, some, ◌++◌, Text, codes, decimal_int, ℤ,
}

pub record ApiError : Type 0 where
  pub status_code : ℤ
  pub error_code : ℤ
  pub description : Text
  pub retryable : Bool
  pub retry_after : ℤ

-- `external` is an error made by code outside the repository; `plain` is one made by `errors.New`
-- or by `fmt.Errorf` without `%w`; `wrap` is `fmt.Errorf("…: %w", err)`; `render_fatal` is
-- `fmt.Errorf("%w: …: %v", errRenderFatal, err)`, which wraps only `errRenderFatal`.
pub data Error : Type 0 where
  already_exists not_found context_canceled : Error
  external plain : Text → Error
  api : ApiError → Error
  wrap : Text → Error → Error
  render_fatal : Text → Error → Error

unfoldable pub api_error_text : ApiError → Text
api_error_text e =
    codes "telegram api error: status="
    ++ (decimal_int e.status_code
        ++ (codes " code="
            ++ (decimal_int e.error_code ++ (codes " description=" ++ e.description))))

-- `err.Error()`
unfoldable pub error_text : Error → Text
unfolding api_error_text
error_text already_exists = codes "delivery already exists"
error_text not_found = codes "delivery not found"
error_text context_canceled = codes "context canceled"
error_text (external s) = s
error_text (plain s) = s
error_text (api e) = api_error_text e
error_text (wrap s e) = s ++ (codes ": " ++ error_text e)
error_text (render_fatal s e) = codes "render fatal: " ++ (s ++ (codes ": " ++ error_text e))

-- `errors.Is(err, …)` unwraps.
abbrev pub is_already_exists : Error → Bool
is_already_exists already_exists = true
is_already_exists (wrap _ e) = is_already_exists e
is_already_exists _ = false

abbrev pub is_not_found : Error → Bool
is_not_found not_found = true
is_not_found (wrap _ e) = is_not_found e
is_not_found _ = false

abbrev pub is_render_fatal : Error → Bool
is_render_fatal (render_fatal _ _) = true
is_render_fatal (wrap _ e) = is_render_fatal e
is_render_fatal _ = false

-- `errors.As(err, &apiErr)`
abbrev pub as_api_error : Error → Option ApiError
as_api_error (api e) = some e
as_api_error (wrap _ e) = as_api_error e
as_api_error _ = none

pub data Result {ℓ} (A : Type ℓ) : Type ℓ where
  ok : A → Result A
  err : Error → Result A

pub ok-injective {ℓ} : {A : Type ℓ} {a b : A} → ok a ≡ ok b → a ≡ b
ok-injective e = cc

-- `x, err := …; if err != nil { return nil, err }` in a function without effects
abbrev pub and_then {ℓ κ} : {A : Type ℓ} {B : Type κ} → Result A → (A → Result B) → Result B
and_then (ok a) f = f a
and_then (err e) f = err e

abbrev pub wrapped {ℓ} : {A : Type ℓ} → Text → Result A → Result A
wrapped text (ok a) = ok a
wrapped text (err e) = err (wrap text e)

pub and_then-ok {ℓ κ} :
    {A : Type ℓ} {B : Type κ} (r : Result A) (f : A → Result B) (b : B)
    → and_then r f ≡ ok b
    → (a : A) × ((r ≡ ok a) × (f a ≡ ok b))
and_then-ok (ok a) f b h = (a, (refl, h))
and_then-ok (err e) f b h = cc

pub wrapped-ok {ℓ} :
    {A : Type ℓ} (text : Text) (r : Result A) (a : A) → wrapped text r ≡ ok a → r ≡ ok a
wrapped-ok text (ok a) b h = h
wrapped-ok text (err e) b h = cc
