-- ===== src/Http.antt =====
-- The HTTP server's data (internal/http): requests, the response writer with the recorders that wrap it,
-- and handlers.
pub mod Writing
pub mod Guards
pub mod Handlers
pub mod Middleware
pub mod Router
use webhook_telegram_proxy.Prelude.{
  codes, text_eq, ℕ, Bool, true, false, Option, none, some, List, [], ◌∷◌, ◌++◌, String, Text,
  if◌then◌else◌,
}
use webhook_telegram_proxy.Errors.{Error, Result}
use webhook_telegram_proxy.Runtime.{World}
use webhook_telegram_proxy.Service.Alerts.{AcceptResult}

-- What reading the body through `http.MaxBytesReader` gives.
pub data BodyRead : Type 0 where
  read : Text → BodyRead
  too_large : BodyRead
  read_failed : Error → BodyRead

-- What the handlers read of a request; a header that is missing is empty. `request_id` is the value that
-- its context holds under `requestIDKey`.
pub record Request : Type 0 where
  pub method : Text
  pub path : Text
  pub webhook_secret : Text
  pub content_type : Text
  pub request_id_header : Text
  pub basic_auth : Option (Text × Text)
  pub request_id : Text
  pub read_body : ℕ → BodyRead

pub record HealthResponse : Type 0 where
  pub status : Text
  pub store_size_bytes : ℕ
  pub auth_enabled : Bool

pub record ErrorResponse : Type 0 where
  pub error : Text
  pub request_id : Text

-- the payloads of `writeJSON`, and the text of the metrics
pub data Payload : Type 0 where
  health_payload : HealthResponse → Payload
  error_payload : ErrorResponse → Payload
  result_payload : Option AcceptResult → Payload
  live_payload : Payload
  metrics_payload : Payload

abbrev pub Headers : Type 0
Headers = List (Text × Text)

-- The server's own writer: the headers go out with the first status.
pub record Connection : Type 0 where
  pub headers : Headers
  pub head : Option (ℕ × Headers)
  pub body : List Payload

-- `statusRecorder`
pub record Recorder : Type 0 where
  pub status_code : ℕ
  pub wrote_header : Bool

-- a response writer, with the recorders that wrap it from the inside out
pub record Writer : Type 0 where
  pub recorders : List Recorder
  pub connection : Connection

-- The server's `WriteHeader`, which only counts the first time.
abbrev pub send_head : ℕ → Option (ℕ × Headers) → Connection → Connection
send_head code none c = record c { head = some (code, c.headers) }
send_head code (some h) c = c

-- `statusRecorder.WriteHeader`, recorder by recorder
unfoldable pub write_through : ℕ → List Recorder → Connection → Writer
write_through code [] c = record { recorders = []; connection = send_head code c.head c }
write_through code (r ∷ rs) c =
    let inner = write_through code rs c in
    if r.wrote_header then record { recorders = r ∷ rs; connection = c } else record {
      recorders = record { status_code = code; wrote_header = true } ∷ inner.recorders;
      connection = inner.connection;
    }

unfoldable pub write_header : ℕ → Writer → Writer
write_header code w = write_through code w.recorders w.connection

abbrev pub append_body : Payload → Connection → Connection
append_body p c = record c { body = c.body ++ (p ∷ []) }

-- `statusRecorder.Write` writes the status 200 first where it has written none, and hands the payload
-- down; a recorder that has written a status has handed it down too, so that no status is missing below.
unfoldable pub write_payload : Payload → Writer → Writer
write_payload p w =
    let begun = write_header 200 w in record begun { connection = append_body p begun.connection }

abbrev pub put_header : Text → Text → Headers → Headers
put_header name value [] = (name, value) ∷ []
put_header name value ((n, v) ∷ headers) =
    let later = (n, v) ∷ put_header name value headers in
    if text_eq n name then (name, value) ∷ headers else later

-- `w.Header().Set`
unfoldable pub set_header : Text → Text → Writer → Writer
set_header name value w = record w {
  connection = record w.connection { headers = put_header name value w.connection.headers };
}

-- How a handler ends: it returns, it panics, or, on the fuel of `accept_webhook`, it goes on.
pub data Ending : Type 0 where
  returned panicked unfinished : Ending

pub record Reply : Type 0 where
  pub ending : Ending
  pub writer : Writer
  pub world : World

-- http.Handler
abbrev pub Handler : Type 0
Handler = Request → Writer → World → Reply

abbrev pub returns : Writer → World → Reply
returns w world = record { ending = returned; writer = w; world = world }

-- `writeJSON`
unfoldable pub write_json : ℕ → Payload → Writer → Writer
write_json status_code payload w = write_payload payload (
    write_header status_code
      (set_header (codes "Content-Type") (codes "application/json; charset=utf-8") w))

-- `writePublicError`
unfoldable pub write_public_error : Request → ℕ → Text → Writer → Writer
write_public_error r status_code message w =
    write_json status_code (error_payload (record { error = message; request_id = r.request_id })) w
