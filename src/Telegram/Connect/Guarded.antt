-- ===== src/Telegram/Connect/Guarded.antt =====
-- What the addresses of a client that could be made are like: the checks of `normalizeBaseURL` and
-- `parseProxyURL` of internal/telegram/client.go, as what they make sure of.
use webhook_telegram_proxy.Telegram.Connect.Slashes.{
  ends_with_slash, slashes, trim_slashes-no_slash, trim_slashes-Stripped,
}
use webhook_telegram_proxy.Prelude.{
  ℕ, Bool, true, false, not, ◌&&◌, Option, none, some, List, [], ◌∷◌, ◌++◌, ◌≡◌, ◌≢◌, refl, sym,
  ◌∙◌, ap, arith, ◌⊎◌, inl, inr, Text, codes, text_eq, text_eq_iff, is_empty, trim_space, Unicode,
  to_lower, Bool-cases, if◌then◌else◌,
}
use webhook_telegram_proxy.Errors.{Error, Result, ok, err, ok-injective}
use webhook_telegram_proxy.Url.{Url, Urls, has_user}
use webhook_telegram_proxy.Config.Urls.{is_http, has_query, is_proxy_scheme, has_path}
use webhook_telegram_proxy.Config.Bounds.{or-false}
use webhook_telegram_proxy.Telegram.{HttpClient}
use webhook_telegram_proxy.Telegram.Connect.{
  ClientOption, Draft, default_draft, apply_all, check_base_url, checked_base_url,
  normalize_base_url, accept_scheme, check_proxy_url, checked_proxy_url, parse_proxy_url,
  new_http_client,
}
use webhook_telegram_proxy.Telegram.Connect.Made.{new_http_client-IsMade}

-- The base URL is that of a parsed URL without its last slashes, and this has the scheme http or https, a
-- host, and no credentials, query or fragment.
pub record IsBaseUrl (urls : Urls) (raw_url base_url : Text) : Type 0 where
  pub url : Url
  pub parsed : urls.parse (trim_space raw_url) ≡ ok url
  pub scheme : (url.scheme ≡ codes "http") ⊎ (url.scheme ≡ codes "https")
  pub host : url.host ≢ []
  pub no_user : url.user ≡ none
  pub no_query : url.raw_query ≡ []
  pub no_fragment : url.fragment ≡ []
  pub count : ℕ
  pub stripped : urls.string url ≡ base_url ++ slashes count
  pub no_slash : ends_with_slash base_url ≡ false

-- The proxy URL has a host, no query, fragment or path, and the scheme http, https or socks5, in letters
-- of either case.
pub record IsProxyUrl (u : Unicode) (url : Url) : Type 0 where
  pub host : url.host ≢ []
  pub no_query : url.raw_query ≡ []
  pub no_fragment : url.fragment ≡ []
  pub no_path : (url.path ≡ []) ⊎ (url.path ≡ codes "/")
  pub scheme :
      (to_lower u url.scheme ≡ codes "http")
      ⊎ ((to_lower u url.scheme ≡ codes "https") ⊎ (to_lower u url.scheme ≡ codes "socks5"))

-- No proxy was asked for, or the URL that was given for it is one.
abbrev pub IsProxy : Unicode → Urls → Text → Type 0
IsProxy u urls raw_url =
    (trim_space raw_url ≡ [])
    ⊎ ((url : Url) × ((urls.parse (trim_space raw_url) ≡ ok url) × IsProxyUrl u url))

-- The client has the token, and its addresses passed the checks.
pub record IsGuarded (u : Unicode) (urls : Urls) (token : Text) (c : Draft) (client : HttpClient)
    : Type 0 where
  pub same_token : client.token ≡ token
  pub base : IsBaseUrl urls c.base_url client.base_url
  pub proxy : IsProxy u urls c.proxy_url_raw

-- a check that was passed
pub passed :
    {A : Type 0} (b : Bool) (e : Error) (rest : Result A) (a : A)
    → (if b then err e else rest) ≡ ok a
    → (b ≡ false) × (rest ≡ ok a)
passed true e rest a h = cc
passed false e rest a h = (refl, h)

is_text : (s t : Text) → text_eq s t ≡ true → s ≡ t
is_text s t h = (text_eq_iff s t).0 h

empty_text : (s : Text) → not (is_empty s) ≡ false → s ≡ []
empty_text [] h = refl
empty_text (c ∷ s) h = cc

not_empty : (s : Text) → is_empty s ≡ false → s ≢ []
not_empty [] h e = cc
not_empty (c ∷ s) h e = cc

user_none : (url : Url) → has_user url ≡ false → url.user ≡ none
user_none url = no_info url.user
  where
    no_info : (o : Option Text) → elim o [ none ↦ false | some _ ↦ true ] ≡ false → o ≡ none
    no_info none h = refl
    no_info (some info) h = cc

http_scheme : (s : Text) → is_http s ≡ true → (s ≡ codes "http") ⊎ (s ≡ codes "https")
http_scheme s h = elim (Bool-cases (text_eq s (codes "http"))) [
  | inl plain ↦ inl (is_text s _ plain)
  | inr differs ↦ inr (is_text s _ (ground arith))
]

proxy_scheme :
    (s : Text)
    → is_proxy_scheme s ≡ true
    → (s ≡ codes "http") ⊎ ((s ≡ codes "https") ⊎ (s ≡ codes "socks5"))
proxy_scheme s h = elim (Bool-cases (is_http s)) [
  | inl http ↦ elim (http_scheme s http) [ inl plain ↦ inl plain | inr secure ↦ inr (inl secure) ]
  | inr differs ↦ inr (inr (is_text s _ (ground arith)))
]

path_of :
    (s : Text)
    → (not (is_empty s) && not (text_eq s (codes "/"))) ≡ false
    → (s ≡ []) ⊎ (s ≡ codes "/")
path_of [] h = inl refl
path_of (c ∷ s) h = inr (is_text (c ∷ s) _ (ground arith))

check_base_url-ok :
    (urls : Urls) (raw_url base_url : Text) (url : Url)
    → urls.parse (trim_space raw_url) ≡ ok url
    → check_base_url urls url ≡ ok base_url
    → IsBaseUrl urls raw_url base_url
check_base_url-ok urls raw_url base_url url parsed h =
    let (http, h₁) = passed (not (is_http url.scheme)) _ _ base_url h in
    let (host, h₂) = passed (is_empty url.host) _ _ base_url h₁ in
    let (user, h₃) = passed (has_user url) _ _ base_url h₂ in
    let (query, h₄) = passed (has_query url) _ _ base_url h₃ in
    let same = ok-injective h₄ in
    let (no_query, no_fragment) =
      or-false (not (is_empty url.raw_query)) (not (is_empty url.fragment)) query in
    let (count, stripped) = trim_slashes-Stripped (urls.string url) in
    record {
      url = url;
      parsed = parsed;
      scheme = http_scheme url.scheme (ground arith);
      host = not_empty url.host host;
      no_user = user_none url user;
      no_query = empty_text url.raw_query no_query;
      no_fragment = empty_text url.fragment no_fragment;
      count = count;
      stripped = stripped ∙ ap (λ l. l ++ slashes count) same;
      no_slash = ap ends_with_slash (sym same) ∙ trim_slashes-no_slash (urls.string url);
    }

checked_base_url-ok :
    (urls : Urls) (raw_url base_url : Text) (parsed : Result Url)
    → urls.parse (trim_space raw_url) ≡ parsed
    → checked_base_url urls parsed ≡ ok base_url
    → IsBaseUrl urls raw_url base_url
checked_base_url-ok urls raw_url base_url (ok url) e h =
    check_base_url-ok urls raw_url base_url url e h
checked_base_url-ok urls raw_url base_url (err x) e h = cc

normalize_base_url-IsBaseUrl :
    (urls : Urls) (raw_url base_url : Text)
    → normalize_base_url urls raw_url ≡ ok base_url
    → IsBaseUrl urls raw_url base_url
unfolding normalize_base_url
normalize_base_url-IsBaseUrl urls raw_url base_url h =
    let (_, checked) = passed (is_empty (trim_space raw_url)) _ _ base_url h in
    checked_base_url-ok urls raw_url base_url (urls.parse (trim_space raw_url)) refl checked

accepted_scheme :
    (u : Unicode) (urls : Urls) (url : Url) (o : Option Url)
    → accept_scheme urls url (to_lower u url.scheme) ≡ ok o
    → is_proxy_scheme (to_lower u url.scheme) ≡ true
accepted_scheme u urls url o h = elim (Bool-cases (is_proxy_scheme (to_lower u url.scheme))) [
  | inl fits ↦ fits
  | inr differs ↦
      let rest = rw differs at h in
      let (_, wrong) = passed (text_eq (to_lower u url.scheme) (codes "mtproto")) _ _ o rest in cc
]

check_proxy_url-IsProxyUrl :
    (u : Unicode) (urls : Urls) (url : Url) (o : Option Url)
    → check_proxy_url u urls url ≡ ok o
    → IsProxyUrl u url
check_proxy_url-IsProxyUrl u urls url o h =
    let (host, h₁) = passed (is_empty url.host) _ _ o h in
    let (query, h₂) = passed (has_query url) _ _ o h₁ in
    let (path, h₃) = passed (has_path url) _ _ o h₂ in
    let (no_query, no_fragment) =
      or-false (not (is_empty url.raw_query)) (not (is_empty url.fragment)) query in
    record {
      host = not_empty url.host host;
      no_query = empty_text url.raw_query no_query;
      no_fragment = empty_text url.fragment no_fragment;
      no_path = path_of url.path path;
      scheme = proxy_scheme (to_lower u url.scheme) (accepted_scheme u urls url o h₃);
    }

checked_proxy_url-ok :
    (u : Unicode) (urls : Urls) (raw_url : Text) (parsed : Result Url) (o : Option Url)
    → urls.parse (trim_space raw_url) ≡ parsed
    → checked_proxy_url u urls parsed ≡ ok o
    → IsProxy u urls raw_url
checked_proxy_url-ok u urls raw_url (ok url) o e h =
    inr (url, (e, check_proxy_url-IsProxyUrl u urls url o h))
checked_proxy_url-ok u urls raw_url (err x) o e h = cc

parse_proxy_url-IsProxy :
    (u : Unicode) (urls : Urls) (raw_url : Text) (o : Option Url)
    → parse_proxy_url u urls raw_url ≡ ok o
    → IsProxy u urls raw_url
unfolding parse_proxy_url
parse_proxy_url-IsProxy u urls raw_url o h = elim (Bool-cases (is_empty (trim_space raw_url))) [
  | inl blank ↦ inl (empty_text (trim_space raw_url) (ap not blank))
  | inr given ↦
      checked_proxy_url-ok u urls raw_url (urls.parse (trim_space raw_url)) o refl (rw given at h)
]

-- A client that could be made has the token it was given. Its base URL is that of a parsed URL without the
-- last slashes, and this has the scheme http or https, a host, and no credentials, query or fragment. Where
-- a proxy was asked for, its URL has a host, no query, fragment or path, and the scheme http, https or
-- socks5.
pub new_http_client-IsGuarded :
    (u : Unicode) (urls : Urls) (make_dialer : Url → Result (Unit {0})) (token : Text)
    (options : List ClientOption) (client : HttpClient)
    → new_http_client u urls make_dialer token options ≡ ok client
    → IsGuarded u urls token (apply_all options default_draft) client
new_http_client-IsGuarded u urls make_dialer token options client h =
    let c = apply_all options default_draft in
    let made = new_http_client-IsMade u urls make_dialer token options client h in
    record {
      same_token = made.same_token;
      base = normalize_base_url-IsBaseUrl urls c.base_url client.base_url made.checked_base;
      proxy = parse_proxy_url-IsProxy u urls c.proxy_url_raw made.proxy made.checked_proxy;
    }
