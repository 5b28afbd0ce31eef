-- ===== src/Config/Urls.antt =====
-- `validateTelegramBaseURL` and `validateTelegramProxyURL` of internal/config/config.go.
use webhook_telegram_proxy.Prelude.{
  Bool, not, ◌&&◌, ◌||◌, Option, none, some, ◌++◌, Text, codes, text_eq, if◌then◌else◌, trim_space,
  is_empty, Unicode, to_lower,
}
use webhook_telegram_proxy.Errors.{Error, plain, wrap, Result, ok, err}
use webhook_telegram_proxy.Url.{Url, Urls, has_user}

-- `%q` of a scheme is the field `quote`.
unfoldable pub scheme_problem : Urls → Text → Text → Text
scheme_problem urls name scheme =
    codes "telegram "
    ++ (name ++ (codes " scheme " ++ (urls.quote scheme ++ codes " is not supported")))

abbrev pub is_http : Text → Bool
is_http scheme = text_eq scheme (codes "http") || text_eq scheme (codes "https")

abbrev pub has_query : Url → Bool
has_query url = not (is_empty url.raw_query) || not (is_empty url.fragment)

abbrev pub base_url_problem : Urls → Url → Option Error
base_url_problem urls url =
    if not (is_http url.scheme)
    then some (plain (scheme_problem urls (codes "base URL") url.scheme))
    else if is_empty url.host
    then some (plain (codes "telegram base URL must include a host"))
    else if has_user url
    then some (plain (codes "telegram base URL must not contain credentials"))
    else if has_query url
    then some (plain (codes "telegram base URL must not contain query parameters or fragments"))
    else none

abbrev pub parsed_base_url : Urls → Result Url → Option Error
parsed_base_url urls (err e) = some (wrap (codes "parse telegram base URL") e)
parsed_base_url urls (ok url) = base_url_problem urls url

unfoldable pub validate_telegram_base_url : Urls → Text → Option Error
validate_telegram_base_url urls raw_url =
    if is_empty (trim_space raw_url)
    then none
    else parsed_base_url urls (urls.parse (trim_space raw_url))

abbrev pub is_proxy_scheme : Text → Bool
is_proxy_scheme scheme = is_http scheme || text_eq scheme (codes "socks5")

abbrev pub has_path : Url → Bool
has_path url = not (is_empty url.path) && not (text_eq url.path (codes "/"))

abbrev pub mtproto_problem : Text
mtproto_problem =
    codes
      "mtproto proxies are not supported for the HTTP Telegram Bot API client; use socks5/http(s), a local Bot API server, or network-level egress instead"

-- the `switch` on the scheme in lower case
abbrev pub scheme_error : Urls → Url → Text → Option Error
scheme_error urls url lower =
    if is_proxy_scheme lower
    then none
    else if text_eq lower (codes "mtproto")
    then some (plain mtproto_problem)
    else some (plain (scheme_problem urls (codes "proxy URL") url.scheme))

abbrev pub proxy_url_problem : Unicode → Urls → Url → Option Error
proxy_url_problem u urls url =
    if is_empty url.host
    then some (plain (codes "telegram proxy URL must include a host"))
    else if has_query url
    then some (plain (codes "telegram proxy URL must not contain query parameters or fragments"))
    else if has_path url
    then some (plain (codes "telegram proxy URL must not contain a path"))
    else scheme_error urls url (to_lower u url.scheme)

abbrev pub parsed_proxy_url : Unicode → Urls → Result Url → Option Error
parsed_proxy_url u urls (err e) = some (wrap (codes "parse telegram proxy URL") e)
parsed_proxy_url u urls (ok url) = proxy_url_problem u urls url

unfoldable pub validate_telegram_proxy_url : Unicode → Urls → Text → Option Error
validate_telegram_proxy_url u urls raw_url =
    if is_empty (trim_space raw_url)
    then none
    else parsed_proxy_url u urls (urls.parse (trim_space raw_url))
