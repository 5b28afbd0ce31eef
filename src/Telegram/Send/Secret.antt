-- ===== src/Telegram/Send/Secret.antt =====
-- No error of `send_message` describes itself with the token.
use webhook_telegram_proxy.Prelude.{
  ◌||◌, not, length, at_least, ltb, if-holds, false, ℤ, Option, none, some, ◌≡◌, refl, Text, codes,
  contains, is_empty,
}
use webhook_telegram_proxy.Errors.{Error, api, external, error_text, Result, ok, err}
use webhook_telegram_proxy.Telegram.{
  Bytes, SentMessage, SendMessageResponse, Response, Exchange, failed, answered, Net, HttpClient,
}
use webhook_telegram_proxy.Telegram.Redact.{redact, token_replacers}
use webhook_telegram_proxy.Telegram.Redact.Hidden.{IsToken, redact-hides, contains-colon}
use webhook_telegram_proxy.Telegram.Send.{
  has_error, build_api_error, Outcome, decoded, read_response, exchanged, requested, marshalled,
  send_message, limit,
}

-- The text of an error of the client's has no token in it; an error that it only wraps is left out.
abbrev pub IsHidden : Text → Result SentMessage → Type 0
IsHidden t (err (api e)) = contains e.description t ≡ false
IsHidden t (err (external s)) = contains s t ≡ false
IsHidden t _ = Unit

module _ (net : Net) (c : HttpClient) (token : IsToken c.token)
    (no_proxy : c.sensitive_replacers ≡ token_replacers c.token) where
  redacted-clean : (s : Text) → contains (redact c.sensitive_replacers s) c.token ≡ false
  redacted-clean s = rw no_proxy (redact-hides c.token s token)

  built-IsHidden :
      (status : ℤ) (parsed : SendMessageResponse) (e : Option Error) (wait : ℤ)
      → IsHidden c.token (err (api (build_api_error net c status parsed e wait)))
  unfolding build_api_error
  built-IsHidden status parsed e wait = redacted-clean _

  decoded-IsHidden :
      (resp : Response) (answer : SendMessageResponse × Option Error)
      → IsHidden c.token (decoded net c resp answer).result
  unfolding decoded
  decoded-IsHidden resp (parsed, e) =
      if-holds (λ o. IsHidden c.token (Outcome.result o))
        (at_least resp.status_code 400 || (not parsed.is_ok || has_error e)) _ _
        (built-IsHidden _ parsed e _) tt

  read_response-IsHidden :
      (resp : Response) (body : Result Bytes)
      → IsHidden c.token (read_response net c resp body).result
  unfolding read_response
  read_response-IsHidden resp (err e) = redacted-clean (error_text e)
  read_response-IsHidden resp (ok body) =
      if-holds (λ o. IsHidden c.token (Outcome.result o)) (ltb (limit net c) (length body)) _ _
        (contains-colon (codes "response body exceeds size limit") c.token refl token)
        (decoded-IsHidden resp (net.unmarshal body))

  exchanged-IsHidden : (x : Exchange) → IsHidden c.token (exchanged net c x).result
  unfolding exchanged
  exchanged-IsHidden (failed e) = redacted-clean e.text
  exchanged-IsHidden (answered resp) = read_response-IsHidden resp _

  requested-IsHidden :
      (body : Text) (e : Option Error) → IsHidden c.token (requested net c body e).result
  requested-IsHidden body (some e) = redacted-clean (error_text e)
  requested-IsHidden body none = exchanged-IsHidden _

  marshalled-IsHidden : (body : Result Text) → IsHidden c.token (marshalled net c body).result
  marshalled-IsHidden (err e) = tt
  marshalled-IsHidden (ok body) = requested-IsHidden body _

pub send_message-IsHidden :
    (net : Net) (c : HttpClient) (chat_id text parse_mode : Text)
    → IsToken c.token
    → c.sensitive_replacers ≡ token_replacers c.token
    → IsHidden c.token (send_message net c chat_id text parse_mode).result
unfolding send_message
send_message-IsHidden net c chat_id text parse_mode token no_proxy =
    if-holds (λ o. IsHidden c.token (Outcome.result o)) (is_empty c.token) _ _
      (contains-colon (codes "telegram bot token is not configured") c.token refl token)
      (marshalled-IsHidden net c token no_proxy _)
