-- ===== src/Telegram/Send/Made.antt =====
-- What is proved of a client's errors holds for the clients that `NewHTTPClient` of
-- internal/telegram/client.go makes.
use webhook_telegram_proxy.Prelude.{
  codes, to_lower, text_eq, Option, none, some, List, [], ◌++◌, ◌≡◌, refl, sym, ◌∙◌, ap, subst,
  Text, is_empty, Bool-cases, inl, inr, append-nil, trim_space, Unicode, false, contains,
}
use webhook_telegram_proxy.Errors.{Result, ok, err, ok-injective}
use webhook_telegram_proxy.Config.Urls.{is_proxy_scheme, has_query, has_path}
use webhook_telegram_proxy.Url.{Url, Urls}
use webhook_telegram_proxy.Telegram.{Net, HttpClient}
use webhook_telegram_proxy.Telegram.Redact.{
  redact, token_replacers, user_replacers, proxy_replacers, build_sensitive_replacers,
}
use webhook_telegram_proxy.Telegram.Redact.Hidden.{IsToken, redact-hides}
use webhook_telegram_proxy.Telegram.Connect.{
  ClientOption, default_draft, apply_all, accept_scheme, checked_proxy_url, parse_proxy_url,
  new_http_client,
}
use webhook_telegram_proxy.Telegram.Connect.Guarded.{passed}
use webhook_telegram_proxy.Telegram.Connect.Made.{new_http_client-IsMade}
use webhook_telegram_proxy.Telegram.Send.{send_message}
use webhook_telegram_proxy.Telegram.Send.Secret.{IsHidden, send_message-IsHidden}

-- The URL that is given for the proxy, if it is one, has no credentials.
abbrev pub WithoutCredentials : Urls → Text → Type 0
WithoutCredentials urls raw_url =
    (url : Url) → urls.parse (trim_space raw_url) ≡ ok url → url.user ≡ none

no_user-proxy_replacers :
    (urls : Urls) (url : Url) → url.user ≡ none → proxy_replacers urls (some url) ≡ []
no_user-proxy_replacers urls url h = ap (user_replacers urls url) h

accepted-proxy_replacers :
    (urls : Urls) (url : Url) (lower : Text) (o : Option Url)
    → url.user ≡ none
    → accept_scheme urls url lower ≡ ok o
    → proxy_replacers urls o ≡ []
accepted-proxy_replacers urls url lower o no_user h = elim (Bool-cases (is_proxy_scheme lower)) [
  | inl fits ↦
      let same : some url ≡ o = ok-injective (rw fits at h) in
      subst (λ p. proxy_replacers urls p ≡ []) same (no_user-proxy_replacers urls url no_user)
  | inr differs ↦
      let rest = rw differs at h in
      let (_, wrong) = passed (text_eq lower (codes "mtproto")) _ _ o rest in cc
]

checked-proxy_replacers :
    (u : Unicode) (urls : Urls) (raw_url : Text) (parsed : Result Url) (o : Option Url)
    → WithoutCredentials urls raw_url
    → urls.parse (trim_space raw_url) ≡ parsed
    → checked_proxy_url u urls parsed ≡ ok o
    → proxy_replacers urls o ≡ []
checked-proxy_replacers u urls raw_url (ok url) o free e h =
    let (_, h₁) = passed (is_empty url.host) _ _ o h in
    let (_, h₂) = passed (has_query url) _ _ o h₁ in
    let (_, h₃) = passed (has_path url) _ _ o h₂ in
    accepted-proxy_replacers urls url (to_lower u url.scheme) o (free url e) h₃
checked-proxy_replacers u urls raw_url (err x) o free e h = cc

parse_proxy_url-proxy_replacers :
    (u : Unicode) (urls : Urls) (raw_url : Text) (o : Option Url)
    → WithoutCredentials urls raw_url
    → parse_proxy_url u urls raw_url ≡ ok o
    → proxy_replacers urls o ≡ []
unfolding parse_proxy_url
parse_proxy_url-proxy_replacers u urls raw_url o free h =
    elim (Bool-cases (is_empty (trim_space raw_url))) [
      | inl blank ↦
          let same : none ≡ o = ok-injective (rw blank at h) in
          subst (λ p. proxy_replacers urls p ≡ []) same refl
      | inr given ↦
          checked-proxy_replacers u urls raw_url (urls.parse (trim_space raw_url)) o free refl
            (rw given at h)
    ]

-- For a client that was made for a token that has a colon and no square bracket, and without credentials in
-- the proxy URL: the token does not occur in any text that the client redacts, nor in the description of an
-- API error that its `send_message` returns, nor in the text of an error of making the request.
pub new_http_client-IsHidden :
    (u : Unicode) (urls : Urls) (make_dialer : Url → Result (Unit {0})) (token : Text)
    (options : List ClientOption) (client : HttpClient) (net : Net)
    (chat_id text parse_mode s : Text)
    → new_http_client u urls make_dialer token options ≡ ok client
    → IsToken token
    → WithoutCredentials urls (apply_all options default_draft).proxy_url_raw
    → (contains (redact client.sensitive_replacers s) token ≡ false)
      × IsHidden token (send_message net client chat_id text parse_mode).result
unfolding build_sensitive_replacers
new_http_client-IsHidden u urls make_dialer token options client net chat_id text parse_mode s h
      is_token free =
    let made = new_http_client-IsMade u urls make_dialer token options client h in
    let replacers : client.sensitive_replacers ≡ token_replacers token =
      made.replacers
      ∙ ap (λ l. token_replacers token ++ l)
          (parse_proxy_url-proxy_replacers u urls _ made.proxy free made.checked_proxy)
      ∙ append-nil (token_replacers token) in
    (
      subst (λ l. contains (redact l s) token ≡ false) (sym replacers)
          (redact-hides token s is_token),
      subst (λ t. IsHidden t (send_message net client chat_id text parse_mode).result)
          made.same_token
          (send_message-IsHidden net client chat_id text parse_mode
            (subst IsToken (sym made.same_token) is_token)
            (replacers ∙ ap token_replacers (sym made.same_token))),
    )
