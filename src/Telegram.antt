-- ===== src/Telegram.antt =====
-- The Telegram client (internal/telegram/client.go): its data, and what it uses of the libraries.
pub mod Redact
pub mod Connect
pub mod Send
use webhook_telegram_proxy.Prelude.{ℕ, Bool, Option, List, Text, ℤ}
use webhook_telegram_proxy.Errors.{Error, Result}

abbrev pub Bytes : Type 0
Bytes = List ℕ

pub record SentMessage : Type 0 where
  pub message_id : ℤ
  pub chat_id : ℤ

pub record SendMessageRequest : Type 0 where
  pub chat_id : Text
  pub text : Text
  pub parse_mode : Text
  pub disable_web_page_preview : Bool

-- `sendMessageResponse`, with the fields of `parameters` and `result`
pub record SendMessageResponse : Type 0 where
  pub is_ok : Bool
  pub description : Text
  pub error_code : ℤ
  pub retry_after : ℤ
  pub migrate_to_chat_id : ℤ
  pub message_id : ℤ
  pub chat_id : ℤ

pub data Errno : Type 0 where
  econnrefused econnreset epipe etimedout other_errno : Errno

-- An error of `Client.Do`: its text, and what `errors.Is` and `errors.As` find in it.
pub record NetworkError : Type 0 where
  pub text : Text
  pub is_canceled : Bool
  pub is_deadline_exceeded : Bool
  pub is_timeout : Bool
  pub is_dns : Bool
  pub is_op : Bool
  pub errno : Option Errno

-- `read_body n` is what `io.ReadAll(io.LimitReader(resp.Body, n))` gives.
pub record Response : Type 0 where
  pub status_code : ℤ
  pub retry_after_header : Text
  pub read_body : ℤ → Result Bytes

pub data Exchange : Type 0 where
  failed : NetworkError → Exchange
  answered : Response → Exchange

-- json.Marshal, the error of http.NewRequestWithContext at a URL, `Client.Do` at a URL, a user agent and
-- a body, json.Unmarshal, http.StatusText, and the time until the date that http.ParseTime reads.
pub record Net : Type 0 where
  pub marshal : SendMessageRequest → Result Text
  pub request_error : Text → Option Error
  pub exchange : Text → Text → Text → Exchange
  pub unmarshal : Bytes → SendMessageResponse × Option Error
  pub status_text : ℤ → Text
  pub until_date : Text → Option ℤ

pub record StringReplacer : Type 0 where
  pub old : Text
  pub new : Text

-- `HTTPClient` once it was made; the transport is the field `exchange` of `Net`.
pub record HttpClient : Type 0 where
  pub base_url : Text
  pub token : Text
  pub user_agent : Text
  pub max_body : ℤ
  pub sensitive_replacers : List StringReplacer
