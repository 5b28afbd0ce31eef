-- ===== src/Template/Sanitize.antt =====
-- The text helpers of internal/template/renderer.go: `sanitize`, `sanitizeStringMap`, `firstNonEmpty`,
-- `truncate`, `orDash` and the icons. The letter tables of Go's `unicode` package are parameters.
pub mod Plain
use webhook_telegram_proxy.Prelude.{
  Unicode, to_lower, to_upper, equal_fold, has_prefix, contains, ℕ, ◌-◌, Bool, true, false, ◌&&◌,
  ◌||◌, not, List, [], ◌∷◌, ◌++◌, map, Text, codes, text_eq, leb, ◌==◌, length, take, drop, any,
  if◌then◌else◌, trim_space, is_empty,
}
use webhook_telegram_proxy.Models.{StringMap}

-- html.EscapeString
unfoldable pub escape_char : ℕ → Text
escape_char c =
    if c == b'&'
    then codes "&amp;"
    else if c == b'\''
    then codes "&#39;"
    else if c == b'<'
    then codes "&lt;"
    else if c == b'>'
    then codes "&gt;"
    else if c == b'"'
    then codes "&#34;"
    else c ∷ []

unfoldable pub escape_string : Text → Text
escape_string [] = []
escape_string (c ∷ s) = escape_char c ++ escape_string s

unfoldable pub cut_text : Text → ℕ → Text
cut_text s limit = if leb limit 1 then take limit s else take (limit - 1) s ++ codes "…"

unfoldable pub sanitize : Text → ℕ → Text
sanitize value max_len =
    let escaped = escape_string (trim_space value) in
    if is_empty (trim_space value)
    then []
    else if leb (length escaped) max_len
    then escaped
    else cut_text escaped max_len

-- m[key] = value
unfoldable pub set_key : Text → Text → StringMap → StringMap
set_key key value [] = (key, value) ∷ []
set_key key value ((k, v) ∷ m) =
    let later = (k, v) ∷ set_key key value m in if text_eq k key then (key, value) ∷ m else later

unfoldable pub sanitize_string_map : StringMap → ℕ → ℕ → StringMap → StringMap
sanitize_string_map [] max_key max_value done = done
sanitize_string_map ((k, v) ∷ m) max_key max_value done =
    sanitize_string_map m max_key max_value
      (set_key (sanitize k max_key) (sanitize v max_value) done)

unfoldable pub first_non_empty : List Text → Text
first_non_empty [] = []
first_non_empty (v ∷ vs) =
    let rest = first_non_empty vs in if is_empty (trim_space v) then rest else v

-- `truncate` of the template functions
unfoldable pub truncate : Text → ℕ → Text
truncate value limit =
    if leb limit 0 || is_empty value
    then []
    else if leb (length value) limit
    then value
    else cut_text value limit

unfoldable pub or_dash : Text → Text
or_dash value = if is_empty (trim_space value) then codes "—" else value

module _ (u : Unicode) where
  abbrev pub normal : Text → Text
  normal value = to_lower u (trim_space value)

  unfoldable pub severity_icon : Text → Text
  severity_icon value =
      if text_eq (normal value) (codes "critical")
      then codes "🔴"
      else if text_eq (normal value) (codes "warning")
      then codes "🟠"
      else if text_eq (normal value) (codes "info")
      then codes "🟡"
      else codes "⚪"

  unfoldable pub status_icon : Text → Text
  status_icon value =
      if text_eq (normal value) (codes "firing")
      then codes "🔥"
      else if text_eq (normal value) (codes "resolved")
      then codes "✅"
      else codes "⚪"

  unfoldable pub env_icon : Text → Text
  env_icon value =
      if text_eq (normal value) (codes "prod")
      then codes "🟥"
      else if text_eq (normal value) (codes "staging")
      then codes "🟨"
      else if text_eq (normal value) (codes "dev")
      then codes "🟩"
      else codes "⬜"

  -- `normalizeEnvironment`
  abbrev pub environment_of : Text → Text
  environment_of n =
      if is_empty n
      then []
      else if text_eq n (codes "prod") || text_eq n (codes "production")
      then codes "prod"
      else if text_eq n (codes "staging") || text_eq n (codes "stage")
      then codes "staging"
      else if text_eq n (codes "dev")
          || (text_eq n (codes "development") || text_eq n (codes "test"))
      then codes "dev"
      else if contains n (codes "prod")
      then codes "prod"
      else if contains n (codes "stag")
      then codes "staging"
      else if contains n (codes "dev") || contains n (codes "test")
      then codes "dev"
      else []

  unfoldable pub normalize_environment : Text → Text
  normalize_environment value = environment_of (normal value)
