-- ===== src/Telegram/Redact.antt =====
-- What the client keeps out of errors and logs: `buildSensitiveReplacers`, `sanitizeURLForLog` and
-- `redact` of internal/telegram/client.go.
pub mod Hidden
use webhook_telegram_proxy.Prelude.{
  ℕ, zero, suc, ◌-◌, Bool, true, false, not, ◌&&◌, Option, none, some, List, [], ◌∷◌, ◌++◌, Text,
  codes, text_eq, length, if◌then◌else◌, is_empty, has_prefix, contains,
}
use webhook_telegram_proxy.Url.{Url, Urls}
use webhook_telegram_proxy.Telegram.{StringReplacer}

abbrev pub redacted : Text
redacted = codes "[REDACTED]"

-- strings.ReplaceAll for an `old` that is not empty; `skip` counts the characters of a match to pass.
unfoldable pub replace_from : Text → Text → ℕ → Text → Text
replace_from old new skip [] = []
replace_from old new (suc skip) (c ∷ s) = replace_from old new skip s
replace_from old new zero (c ∷ s) =
    let replaced = new ++ replace_from old new (length old - 1) s in
    let kept = c ∷ replace_from old new zero s in if has_prefix (c ∷ s) old then replaced else kept

abbrev pub replace_all : Text → Text → Text → Text
replace_all s old new = replace_from old new 0 s

-- `redact`
unfoldable pub redact : List StringReplacer → Text → Text
redact [] s = s
redact (r ∷ replacers) s =
    redact replacers
      (if not (is_empty r.old) && contains s r.old then replace_all s r.old r.new else s)

unfoldable pub sanitize_url_for_log : Urls → Url → Text
sanitize_url_for_log urls url =
    urls.string (record url { user = none; raw_query = []; fragment = []; path = [] })

abbrev pub token_replacers : Text → List StringReplacer
token_replacers token = if is_empty token then [] else record { old = token; new = redacted } ∷ []

abbrev pub user_info_replacers : Text → List StringReplacer
user_info_replacers info =
    if is_empty info
    then []
    else record { old = info ++ codes "@"; new = redacted ++ codes "@" } ∷ []

abbrev pub url_replacers : Urls → Url → List StringReplacer
url_replacers urls url =
    if text_eq (sanitize_url_for_log urls url) (urls.string url)
    then []
    else record { old = urls.string url; new = sanitize_url_for_log urls url } ∷ []

abbrev pub user_replacers : Urls → Url → Option Text → List StringReplacer
user_replacers urls url none = []
user_replacers urls url (some info) = user_info_replacers info ++ url_replacers urls url

abbrev pub proxy_replacers : Urls → Option Url → List StringReplacer
proxy_replacers urls none = []
proxy_replacers urls (some url) = user_replacers urls url url.user

unfoldable pub build_sensitive_replacers : Urls → Text → Option Url → List StringReplacer
build_sensitive_replacers urls token proxy_url =
    token_replacers token ++ proxy_replacers urls proxy_url
