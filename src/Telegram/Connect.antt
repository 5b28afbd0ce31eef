-- ===== src/Telegram/Connect.antt =====
-- `NewHTTPClient` of internal/telegram/client.go: its options, `normalizeBaseURL`, `parseProxyURL` and
-- the choice of the transport.
pub mod Made
pub mod Slashes
pub mod Guarded
use webhook_telegram_proxy.Prelude.{
  ℕ, ◌^◌, Bool, true, false, not, ◌&&◌, ◌||◌, Option, none, some, List, [], ◌∷◌, ◌++◌, Text, codes,
  text_eq, ◌==◌, if◌then◌else◌, trim_space, is_empty, Unicode, to_lower, ℤ, pos, is_positive,
}
use webhook_telegram_proxy.Errors.{Error, plain, wrap, Result, ok, err, and_then}
use webhook_telegram_proxy.Url.{Url, Urls, has_user}
use webhook_telegram_proxy.Config.Urls.{
  scheme_problem, is_http, has_query, is_proxy_scheme, has_path, mtproto_problem,
}
use webhook_telegram_proxy.Telegram.{HttpClient}
use webhook_telegram_proxy.Telegram.Redact.{build_sensitive_replacers}

-- strings.TrimRight(s, "/")
unfoldable pub trim_slashes : Text → Text
trim_slashes [] = []
trim_slashes (c ∷ s) =
    let rest = trim_slashes s in if c == b'/' && is_empty rest then [] else c ∷ rest

abbrev pub check_base_url : Urls → Url → Result Text
check_base_url urls url =
    if not (is_http url.scheme)
    then err (plain (scheme_problem urls (codes "base URL") url.scheme))
    else if is_empty url.host
    then err (plain (codes "telegram base URL must include a host"))
    else if has_user url
    then err (plain (codes "telegram base URL must not contain credentials"))
    else if has_query url
    then err (plain (codes "telegram base URL must not contain query parameters or fragments"))
    else ok (trim_slashes (urls.string url))

abbrev pub checked_base_url : Urls → Result Url → Result Text
checked_base_url urls (err e) = err (wrap (codes "parse telegram base URL") e)
checked_base_url urls (ok url) = check_base_url urls url

unfoldable pub normalize_base_url : Urls → Text → Result Text
normalize_base_url urls raw_url =
    if is_empty (trim_space raw_url)
    then err (plain (codes "telegram base URL must not be empty"))
    else checked_base_url urls (urls.parse (trim_space raw_url))

-- the `switch` on the scheme in lower case
abbrev pub accept_scheme : Urls → Url → Text → Result (Option Url)
accept_scheme urls url lower =
    if is_proxy_scheme lower
    then ok (some url)
    else if text_eq lower (codes "mtproto")
    then err (plain mtproto_problem)
    else err (plain (scheme_problem urls (codes "proxy URL") url.scheme))

abbrev pub check_proxy_url : Unicode → Urls → Url → Result (Option Url)
check_proxy_url u urls url =
    if is_empty url.host
    then err (plain (codes "telegram proxy URL must include a host"))
    else if has_query url
    then err (plain (codes "telegram proxy URL must not contain query parameters or fragments"))
    else if has_path url
    then err (plain (codes "telegram proxy URL must not contain a path"))
    else accept_scheme urls url (to_lower u url.scheme)

abbrev pub checked_proxy_url : Unicode → Urls → Result Url → Result (Option Url)
checked_proxy_url u urls (err e) = err (wrap (codes "parse telegram proxy URL") e)
checked_proxy_url u urls (ok url) = check_proxy_url u urls url

unfoldable pub parse_proxy_url : Unicode → Urls → Text → Result (Option Url)
parse_proxy_url u urls raw_url =
    if is_empty (trim_space raw_url)
    then ok none
    else checked_proxy_url u urls (urls.parse (trim_space raw_url))

-- `Option` of the client
pub data ClientOption : Type 0 where
  with_base_url with_proxy_url with_user_agent : Text → ClientOption
  with_max_response_bytes : ℤ → ClientOption
  with_http_client : Bool → ClientOption

-- The client while its options are applied. The argument of `with_http_client` tells whether the client
-- is there.
pub record Draft : Type 0 where
  pub base_url : Text
  pub proxy_url_raw : Text
  pub user_agent : Text
  pub max_body : ℤ
  pub custom_http_client : Bool

abbrev pub default_draft : Draft
default_draft = record {
  base_url = codes "https://api.telegram.org";
  proxy_url_raw = [];
  user_agent = codes "webhook-telegram-proxy";
  max_body = pos (2 ^ 20);
  custom_http_client = false;
}

unfoldable pub apply : ClientOption → Draft → Draft
apply (with_base_url raw_url) c =
    if is_empty raw_url then c else record c { base_url = trim_space raw_url }
apply (with_proxy_url raw_url) c = record c { proxy_url_raw = trim_space raw_url }
apply (with_user_agent ua) c = if is_empty ua then c else record c { user_agent = ua }
apply (with_max_response_bytes n) c = if is_positive n then record c { max_body = n } else c
apply (with_http_client given) c = if given then record c { custom_http_client = true } else c

abbrev pub apply_all : List ClientOption → Draft → Draft
apply_all [] c = c
apply_all (o ∷ options) c = apply_all options (apply o c)

-- The transport: `make_dialer` is `proxy.FromURL`, for a SOCKS5 proxy.
abbrev pub socks_transport : Result (Unit {0}) → Result (Unit {0})
socks_transport (ok t) = ok t
socks_transport (err e) = err (wrap (codes "configure telegram socks5 proxy") e)

module _ (u : Unicode) (urls : Urls) (make_dialer : Url → Result (Unit {0})) where
  abbrev pub scheme_transport : Url → Text → Result (Unit {0})
  scheme_transport url lower =
      if is_http lower
      then ok tt
      else if text_eq lower (codes "socks5")
      then socks_transport (make_dialer url)
      else err (plain (codes "unsupported telegram proxy scheme " ++ urls.quote url.scheme))

  unfoldable pub new_transport : Option Url → Result (Unit {0})
  new_transport none = ok tt
  new_transport (some url) = scheme_transport url (to_lower u url.scheme)

  abbrev pub is_given : Option Url → Bool
  is_given none = false
  is_given (some url) = true

  abbrev pub client_of : Text → Draft → Text → Option Url → HttpClient
  client_of token c base_url proxy_url = record {
    base_url = base_url;
    token = token;
    user_agent = c.user_agent;
    max_body = c.max_body;
    sensitive_replacers = build_sensitive_replacers urls token proxy_url;
  }

  abbrev pub new_client : Text → Draft → Text → Option Url → Result HttpClient
  new_client token c base_url proxy_url =
      if c.custom_http_client && is_given proxy_url
      then err (plain (codes "telegram proxy URL cannot be combined with a custom HTTP client"))
      else and_then (if c.custom_http_client then ok tt else new_transport proxy_url)
          (λ _. ok (client_of token c base_url proxy_url))

  abbrev pub with_proxy : Text → Draft → Text → Result HttpClient
  with_proxy token c base_url =
      and_then (parse_proxy_url u urls c.proxy_url_raw) (new_client token c base_url)

  unfoldable pub new_http_client : Text → List ClientOption → Result HttpClient
  new_http_client token options =
      let c = apply_all options default_draft in
      and_then (normalize_base_url urls c.base_url) (with_proxy token c)
