-- ===== src/Telegram/Connect/Made.antt =====
-- What a client that could be made is made of.
use webhook_telegram_proxy.Prelude.{
  ◌∙◌, ◌&&◌, Option, List, Text, ◌≡◌, sym, ap, Bool-cases, inl, inr, if◌then◌else◌, Unicode,
}
use webhook_telegram_proxy.Errors.{Result, ok, ok-injective, and_then-ok}
use webhook_telegram_proxy.Url.{Url, Urls}
use webhook_telegram_proxy.Telegram.{HttpClient}
use webhook_telegram_proxy.Telegram.Redact.{build_sensitive_replacers}
use webhook_telegram_proxy.Telegram.Connect.{
  ClientOption, Draft, default_draft, apply_all, normalize_base_url, parse_proxy_url, new_transport,
  is_given, client_of, new_client, with_proxy, new_http_client,
}

-- The parts of a client: it has the token, talks to a base URL that was checked, and redacts the token
-- and what a checked proxy URL discloses.
pub record IsMade (u : Unicode) (urls : Urls) (token : Text) (c : Draft) (client : HttpClient)
    : Type 0 where
  pub same_token : client.token ≡ token
  pub checked_base : normalize_base_url urls c.base_url ≡ ok client.base_url
  pub proxy : Option Url
  pub checked_proxy : parse_proxy_url u urls c.proxy_url_raw ≡ ok proxy
  pub replacers : client.sensitive_replacers ≡ build_sensitive_replacers urls token proxy

module _ (u : Unicode) (urls : Urls) (make_dialer : Url → Result (Unit {0})) where
  new_client-ok :
      (token : Text) (c : Draft) (base_url : Text) (proxy_url : Option Url) (client : HttpClient)
      → new_client u urls make_dialer token c base_url proxy_url ≡ ok client
      → client_of u urls make_dialer token c base_url proxy_url ≡ client
  new_client-ok token c base_url proxy_url client h =
      elim (Bool-cases (c.custom_http_client && is_given u urls make_dialer proxy_url)) [
        | inl both ↦ absurd (let wrong = rw both at h in cc)
        | inr fits ↦
            let built = rw fits at h in
            let (_, (_, made)) =
              and_then-ok
                (if c.custom_http_client then ok tt else new_transport u urls make_dialer proxy_url)
                (λ _. ok (client_of u urls make_dialer token c base_url proxy_url)) client built in
            ok-injective made
      ]

  -- A client that could be made has the token it was given, a base URL that was checked, and replacers
  -- that redact that token and what a checked proxy URL discloses.
  pub new_http_client-IsMade :
      (token : Text) (options : List ClientOption) (client : HttpClient)
      → new_http_client u urls make_dialer token options ≡ ok client
      → IsMade u urls token (apply_all options default_draft) client
  unfolding new_http_client
  new_http_client-IsMade token options client h =
      let c = apply_all options default_draft in
      let (base_url, (base_ok, later)) =
        and_then-ok (normalize_base_url urls c.base_url) (with_proxy u urls make_dialer token c)
          client h in
      let (proxy_url, (proxy_ok, built)) =
        and_then-ok (parse_proxy_url u urls c.proxy_url_raw)
          (new_client u urls make_dialer token c base_url) client later in
      let same = new_client-ok token c base_url proxy_url client built in
      record {
        same_token = sym (ap (λ t. HttpClient.token t) same);
        checked_base = base_ok ∙ ap (λ t. ok (HttpClient.base_url t)) same;
        proxy = proxy_url;
        checked_proxy = proxy_ok;
        replacers = sym (ap (λ t. HttpClient.sensitive_replacers t) same);
      }
