-- ===== src/Http/Handlers.antt =====
-- The handlers of internal/http/handlers.go, and `livenessHandler` of internal/http/router.go.
pub mod Health
use webhook_telegram_proxy.Prelude.{
  ℕ, Bool, true, false, Option, none, some, List, [], ◌∷◌, Text, codes, ltb, ◌==◌, if◌then◌else◌,
}
use webhook_telegram_proxy.Errors.{Error, Result, ok, err}
use webhook_telegram_proxy.Config.{basic_auth_enabled}
use webhook_telegram_proxy.Runtime.{
  Env, World, emit, tick, webhook_received, webhook_payload_size, driver_answer, request, query,
}
use webhook_telegram_proxy.Store.Methods.{size_bytes}
use webhook_telegram_proxy.Service.Alerts.{AcceptResult, Answer, accepted, refused, accept_webhook}
use webhook_telegram_proxy.Http.{
  Request, BodyRead, read, too_large, read_failed, Payload, result_payload, health_payload,
  live_payload, Writer, Reply, Handler, returned, unfinished, returns, write_json,
  write_public_error,
}
use webhook_telegram_proxy.Http.Guards.{
  byte_length, Site, authorize_webhook, require_json_content_type,
}

unfoldable pub public_error_message : ℕ → Text
public_error_message status_code =
    if status_code == 400
    then codes "invalid webhook payload"
    else if status_code == 401
    then codes "unauthorized"
    else if status_code == 413
    then codes "payload exceeds max request size"
    else if status_code == 415
    then codes "content type must be application/json"
    else if status_code == 503
    then codes "service temporarily unavailable"
    else if status_code == 502
    then codes "delivery temporarily unavailable"
    else codes "internal server error"

-- `calls` bounds the calls of itself that `accept_webhook` makes.
module _ (env : Env) (site : Site) (calls : ℕ) where
  abbrev pub answer_webhook : Request → Writer → Answer → Writer
  answer_webhook r w (accepted result status_code) =
      write_json status_code (result_payload (some result)) w
  answer_webhook r w (refused result status_code e) =
      write_public_error r status_code (public_error_message status_code) w

  abbrev pub processed : Request → Writer → Result Answer × World → Reply
  processed r w (ok answer, world) = returns (answer_webhook r w answer) world
  processed r w (err e, world) = record { ending = unfinished; writer = w; world = world }

  -- after the body was read
  unfoldable pub receive_body : Request → Writer → World → BodyRead → Reply
  receive_body r w world too_large =
      returns (write_public_error r 413 (codes "payload exceeds max request size") w)
        (emit (webhook_received "payload_too_large") world)
  receive_body r w world (read_failed e) =
      returns (write_public_error r 400 (codes "invalid request body") w) world
  receive_body r w world (read body) =
      processed r w
        (accept_webhook env calls body (emit (webhook_payload_size (byte_length body)) world))

  abbrev pub receive_json : Request → Writer → World → Option Error → Reply
  receive_json r w world (some e) =
      returns (write_public_error r 415 (codes "content type must be application/json") w)
        (emit (webhook_received "unsupported_media_type") world)
  receive_json r w world none = receive_body r w world (r.read_body env.cfg.max_request_body_bytes)

  unfoldable pub webhook_receiver : Handler
  webhook_receiver r w world =
      if authorize_webhook site env.cfg r
      then receive_json r w world (require_json_content_type site r)
      else returns (write_public_error r 401 (codes "unauthorized") w)
          (emit (webhook_received "unauthorized") world)

-- `health`
module _ (env : Env) where
  abbrev pub unhealthy : Writer → Writer
  unhealthy w =
      write_json 503
        (health_payload (record {
          status = codes "unhealthy";
          store_size_bytes = 0;
          auth_enabled = basic_auth_enabled env.cfg;
        }))
        w

  abbrev pub healthy : ℕ → Writer → Writer
  healthy size w =
      let pressure = ltb env.cfg.store_max_size_bytes size in
      write_json (if pressure then 503 else 200)
        (health_payload (record {
          status = if pressure then codes "store_pressure" else codes "ok";
          store_size_bytes = size;
          auth_enabled = basic_auth_enabled env.cfg;
        }))
        w

  abbrev pub sized : Writer → Result ℕ × World → Reply
  sized w (ok size, world) = returns (healthy size w) world
  sized w (err e, world) = returns (unhealthy w) world

  abbrev pub pinged : Writer → Result (Unit {0}) × World → Reply
  pinged w (ok done, world) = sized w (size_bytes env world)
  pinged w (err e, world) = returns (unhealthy w) world

  -- `Ping` of internal/store/sqlite.go under a context with a deadline
  abbrev pub ping : World → Result (Unit {0}) × World
  ping = query env request (λ now table. (ok tt, table))

  unfoldable pub health : Handler
  health r w world = pinged w (ping world)

unfoldable pub liveness_handler : Handler
liveness_handler r w world = returns (write_json 200 live_payload w) world
