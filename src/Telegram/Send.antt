-- ===== src/Telegram/Send.antt =====
-- `SendMessage` of internal/telegram/client.go, and how it classifies what comes back.
pub mod Secret
pub mod Made
pub mod Labels
use webhook_telegram_proxy.Prelude.{
  ℕ, ◌+◌, ◌%◌, ◌^◌, Bool, true, false, not, ◌&&◌, ◌||◌, Option, none, some, List, [], ◌∷◌, ◌++◌,
  String, Text, codes, text_eq, length, ltb, if◌then◌else◌, trim_space, is_empty, ℤ, pos,
  is_positive, less, natural, to_signed, times_wrapped, parse_int, is_int, at_least,
}
use webhook_telegram_proxy.Errors.{
  ApiError, Error, api, external, wrap, error_text, Result, ok, err,
}
use webhook_telegram_proxy.Telegram.{
  Bytes, SentMessage, SendMessageRequest, SendMessageResponse, Errno, econnrefused, econnreset,
  epipe, etimedout, other_errno, NetworkError, Response, Exchange, failed, answered, Net,
  HttpClient,
}
use webhook_telegram_proxy.Telegram.Redact.{redact}

abbrev pub second : ℕ
second = 1_000_000_000

-- What a call returns, and the result label that it observes.
pub record Outcome : Type 0 where
  pub label : String
  pub result : Result SentMessage

abbrev pub failure : String → ApiError → Outcome
failure label e = record { label = label; result = err (api e) }

abbrev pub errno_label : Option Errno → String
errno_label none = "unknown"
errno_label (some other_errno) = "unknown"
errno_label (some _) = "network"

-- `classifyNetworkError` of an error that is not nil
unfoldable pub classify_network_error : NetworkError → Bool × String
classify_network_error e =
    if e.is_canceled
    then (false, "canceled")
    else if e.is_deadline_exceeded
    then (true, "timeout")
    else if e.is_timeout
    then (true, "timeout")
    else if e.is_dns
    then (true, "dns")
    else if e.is_op
    then (true, "network")
    else (true, errno_label e.errno)

unfoldable pub result_label_for : ℤ → Bool → Option Error → String
result_label_for status_code is_ok decode_error =
    if is_int status_code 429
    then "throttled"
    else if at_least status_code 500
    then "server_error"
    else if at_least status_code 400
    then "client_error"
    else elim decode_error [
      | some _ ↦ "decode_error"
      | none ↦ if not is_ok then "client_error" else "success"
    ]

abbrev pub has_error : Option Error → Bool
has_error none = false
has_error (some e) = true

abbrev pub or_else : Text → Text → Text
or_else s fallback = if is_empty s then fallback else s

abbrev pub positive_or_zero : Option ℤ → ℤ
positive_or_zero none = pos 0
positive_or_zero (some d) = if is_positive d then d else pos 0

-- the `switch` of `buildAPIError`
unfoldable pub is_retryable : ℤ → Option Error → Bool
is_retryable status_code decode_error =
    is_int status_code 429
    || at_least status_code 500
    || (has_error decode_error && not (at_least status_code 400))

module _ (net : Net) where
  abbrev pub seconds_or_date : Text → Option ℤ → ℤ
  seconds_or_date h none = positive_or_zero (net.until_date h)
  seconds_or_date h (some seconds) =
      if is_positive seconds
      then times_wrapped seconds second
      else positive_or_zero (net.until_date h)

  unfoldable pub parse_retry_after_header : Text → ℤ
  parse_retry_after_header h =
      if is_empty h then pos 0 else seconds_or_date h (parse_int (trim_space h))

  abbrev pub describe : ℤ → SendMessageResponse → Option Error → Text
  describe status_code parsed decode_error = or_else (trim_space parsed.description) (
      if has_error decode_error
      then codes "unparseable response body"
      else or_else (net.status_text status_code) (codes "telegram error"))

  module _ (c : HttpClient) where
    abbrev pub redact_text : Text → Text
    redact_text s = redact c.sensitive_replacers s

    unfoldable pub build_api_error : ℤ → SendMessageResponse → Option Error → ℤ → ApiError
    build_api_error status_code parsed decode_error retry_after = record {
      status_code = status_code;
      error_code = parsed.error_code;
      description = redact_text (describe status_code parsed decode_error);
      retryable = is_retryable status_code decode_error;
      retry_after = retry_after;
    }

    -- an error without a code of Telegram's
    abbrev pub bare_error : ℤ → Text → Bool → ApiError
    bare_error status_code description retryable = record {
      status_code = status_code;
      error_code = pos 0;
      description = description;
      retryable = retryable;
      retry_after = pos 0;
    }

    -- Telegram's error code stands in for a status below 400.
    abbrev pub effective_status : ℤ → SendMessageResponse → ℤ
    effective_status status_code parsed =
        if not (at_least status_code 400) && (not parsed.is_ok && not (is_int parsed.error_code 0))
        then parsed.error_code
        else status_code

    abbrev pub wait_of : SendMessageResponse → Text → ℤ
    wait_of parsed header =
        let wait = times_wrapped parsed.retry_after second in
        if is_int wait 0 then parse_retry_after_header header else wait

    unfoldable pub decoded : Response → SendMessageResponse × Option Error → Outcome
    decoded resp (parsed, decode_error) =
        let status_code = effective_status resp.status_code parsed in
        if at_least resp.status_code 400 || (not parsed.is_ok || has_error decode_error)
        then failure (result_label_for status_code parsed.is_ok decode_error) (
            build_api_error status_code parsed decode_error
              (wait_of parsed resp.retry_after_header))
        else record {
          label = "success";
          result = ok (record { message_id = parsed.message_id; chat_id = parsed.chat_id });
        }

    abbrev pub limit : ℕ
    limit = if is_positive c.max_body then natural c.max_body else 2 ^ 20

    unfoldable pub read_response : Response → Result Bytes → Outcome
    read_response resp (err e) =
        failure "network" (bare_error resp.status_code (redact_text (error_text e)) true)
    read_response resp (ok body) =
        if ltb limit (length body)
        then failure "decode_error"
            (bare_error resp.status_code (codes "response body exceeds size limit") true)
        else decoded resp (net.unmarshal body)

    unfoldable pub exchanged : Exchange → Outcome
    exchanged (failed e) =
        let (retryable, reason) = classify_network_error e in
        failure reason (bare_error (pos 0) (redact_text e.text) retryable)
    exchanged (answered resp) =
        read_response resp (resp.read_body (to_signed ((limit + 1) % 2 ^ 64)))

    abbrev pub request_url : Text
    request_url = c.base_url ++ (codes "/bot" ++ (c.token ++ codes "/sendMessage"))

    -- `redactError` keeps the error behind a redacted text.
    abbrev pub requested : Text → Option Error → Outcome
    requested body (some e) = record {
      label = "client_error";
      result = err (external (redact_text (error_text e)));
    }
    requested body none = exchanged (net.exchange request_url c.user_agent body)

    abbrev pub marshalled : Result Text → Outcome
    marshalled (err e) = record {
      label = "client_error";
      result = err (wrap (codes "marshal request") e);
    }
    marshalled (ok body) = requested body (net.request_error request_url)

    unfoldable pub send_message : Text → Text → Text → Outcome
    send_message chat_id text parse_mode =
        if is_empty c.token
        then failure "client_error"
            (bare_error (pos 0) (codes "telegram bot token is not configured") false)
        else marshalled (
            net.marshal (record {
              chat_id = chat_id;
              text = text;
              parse_mode = parse_mode;
              disable_web_page_preview = true;
            }))
