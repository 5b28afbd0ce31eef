-- ===== src/Tests/Client.antt =====
-- Instances of what is proved of the Telegram client.
use webhook_telegram_proxy.Url.{Url}
use webhook_telegram_proxy.Prelude.{
  sym, ap, contains, text_eq, is_space, trim_right, trim_left, trim_space, ◌^◌, false, none, [],
  ◌∷◌, ◌≡◌, refl, codes, pos,
}
use webhook_telegram_proxy.Errors.{ok-injective, ok}
use webhook_telegram_proxy.Telegram.{SendMessageResponse, Response, answered, Net, HttpClient}
use webhook_telegram_proxy.Telegram.Redact.{redact, token_replacers, build_sensitive_replacers}
use webhook_telegram_proxy.Telegram.Send.{send_message, result_label_for, build_api_error}
use webhook_telegram_proxy.Telegram.Send.Secret.{IsHidden}
use webhook_telegram_proxy.Telegram.Send.Labels.{is_transient, result_label_for-retryable}
use webhook_telegram_proxy.Telegram.Connect.{
  apply_all, default_draft, apply, new_http_client, normalize_base_url, parse_proxy_url,
  new_transport, trim_slashes,
}
use webhook_telegram_proxy.Telegram.Connect.Guarded.{IsGuarded, new_http_client-IsGuarded}
use webhook_telegram_proxy.Telegram.Send.Made.{new_http_client-IsHidden}
use webhook_telegram_proxy.Tests.{ascii}
use webhook_telegram_proxy.Tests.Settings.{urls}

abbrev client : HttpClient
client = record {
  base_url = codes "https";
  token = codes "12:secret";
  user_agent = codes "webhook-telegram-proxy";
  max_body = pos (2 ^ 20);
  sensitive_replacers = token_replacers (codes "12:secret");
}

-- Telegram asks for a pause of 3 seconds, in words that repeat the token.
abbrev throttled : SendMessageResponse
throttled = record {
  is_ok = false;
  description = codes "bot12:secret is too fast";
  error_code = pos 429;
  retry_after = pos 3;
  migrate_to_chat_id = pos 0;
  message_id = pos 0;
  chat_id = pos 0;
}

abbrev busy : Response
busy = record { status_code = pos 429; retry_after_header = []; read_body = λ _. ok (1 ∷ 2 ∷ []) }

abbrev net : Net
net = record {
  marshal = λ r. ok r.text;
  request_error = λ _. none;
  exchange = λ _ _ _. answered busy;
  unmarshal = λ _. (throttled, none);
  status_text = λ _. [];
  until_date = λ _. none;
}

result_label_for-retryable_example :
    is_transient (result_label_for (pos 429) throttled.is_ok none)
    ≡ (build_api_error net client (pos 429) throttled none (pos 3)).retryable
result_label_for-retryable_example =
    result_label_for-retryable net client (pos 429) throttled none (pos 3)

client-made : new_http_client ascii urls (λ _. ok tt) (codes "12:secret") [] ≡ ok client
unfolding new_http_client normalize_base_url parse_proxy_url apply trim_space trim_left trim_right
    is_space text_eq build_sensitive_replacers new_transport trim_slashes
client-made = refl

new_http_client-IsGuarded_example :
    IsGuarded ascii urls (codes "12:secret") (apply_all [] default_draft) client
new_http_client-IsGuarded_example =
    new_http_client-IsGuarded ascii urls (λ _. ok tt) (codes "12:secret") [] client client-made

new_http_client-IsHidden_example :
    (contains (redact client.sensitive_replacers (codes "bot12:secret")) (codes "12:secret")
      ≡ false)
    × IsHidden
        (codes "12:secret")
        (send_message net client (codes "-100") (codes "disk is full") (codes "HTML")).result
new_http_client-IsHidden_example =
    new_http_client-IsHidden ascii urls (λ _. ok tt) (codes "12:secret") [] client net
      (codes "-100") (codes "disk is full") (codes "HTML") (codes "bot12:secret") client-made
      (refl, refl) (λ url e. ap (λ (v : Url). v.user) (sym (ok-injective e)))
