-- ===== src/Http/Guards.antt =====
-- What a request is checked for: `authorizeWebhook` and `requireJSONContentType` of
-- internal/http/handlers.go, `secureCompare` and `sanitizeRequestID` of internal/http/middleware.go.
pub mod Access
pub mod RequestIds
use webhook_telegram_proxy.Prelude.{
  ℕ, Bool, true, false, not, ◌&&◌, ◌||◌, Option, none, some, List, [], ◌∷◌, ◌+◌, String, Text,
  codes, text_eq, ltb, ◌==◌, same_text, if◌then◌else◌, trim_space, is_empty,
}
use webhook_telegram_proxy.Errors.{Error, plain, Result, ok, err}
use webhook_telegram_proxy.Config.{Config, basic_auth_enabled}
use webhook_telegram_proxy.Http.{Request}

-- What the server uses of the libraries: the digests of `crypto/sha256` in hexadecimal, the media type of
-- `mime.ParseMediaType`, letters and digits of the `unicode` package, and 8 random bytes in hexadecimal.
pub record Site : Type 0 where
  pub sha256_hex : Text → String
  pub media_type : Text → Result Text
  pub is_letter : ℕ → Bool
  pub is_digit : ℕ → Bool
  pub random_hex : ℕ → Option Text

-- len(value), in bytes of UTF-8
abbrev pub rune_length : ℕ → ℕ
rune_length c = if ltb c 0x80 then 1 else if ltb c 0x800 then 2 else if ltb c 0x10000 then 3 else 4

unfoldable pub byte_length : Text → ℕ
byte_length [] = 0
byte_length (c ∷ s) = rune_length c + byte_length s

module _ (site : Site) where
  unfoldable pub secure_compare : Text → Text → Bool
  secure_compare actual expected = same_text (site.sha256_hex actual) (site.sha256_hex expected)

  -- `r.BasicAuth` gives empty texts where there are no credentials.
  unfoldable pub credentials_match : Config → Option (Text × Text) → Bool
  credentials_match cfg none = false
  credentials_match cfg (some (username, password)) =
      secure_compare username cfg.basic_auth_username
      && secure_compare password cfg.basic_auth_password

  unfoldable pub authorize_webhook : Config → Request → Bool
  authorize_webhook cfg r =
      if not (is_empty cfg.webhook_secret) && secure_compare r.webhook_secret cfg.webhook_secret
      then true
      else if basic_auth_enabled cfg && credentials_match cfg r.basic_auth
      then true
      else is_empty cfg.webhook_secret && not (basic_auth_enabled cfg)

  abbrev pub check_media_type : Result Text → Option Error
  check_media_type (err e) = some e
  check_media_type (ok media_type) =
      if text_eq media_type (codes "application/json")
      then none
      else some (plain (codes "unsupported content type"))

  unfoldable pub require_json_content_type : Request → Option Error
  require_json_content_type r =
      if is_empty r.content_type
      then some (plain (codes "missing content-type header"))
      else check_media_type (site.media_type r.content_type)

  abbrev pub is_id_char : ℕ → Bool
  is_id_char c = (site.is_letter c || site.is_digit c) || (c == b'-' || (c == b'_' || c == b'.'))

  -- the loop over the characters
  abbrev pub all_id_chars : Text → Bool
  all_id_chars [] = true
  all_id_chars (c ∷ s) = let rest = all_id_chars s in if is_id_char c then rest else false

  unfoldable pub sanitize_request_id : Text → Option Text
  sanitize_request_id value =
      if is_empty (trim_space value) || ltb 64 (byte_length (trim_space value))
      then none
      else if all_id_chars (trim_space value)
      then some (trim_space value)
      else none

  unfoldable pub random_request_id : ℕ → Text
  random_request_id n = elim (site.random_hex n) [ none ↦ codes "rand-error" | some id ↦ id ]
