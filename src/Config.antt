-- ===== src/Config.antt =====
-- The configuration (internal/config/config.go). Its numbers and durations (in nanoseconds) are integers
-- where it is read and validated, and natural numbers where the services use it.
pub mod Urls
pub mod Validate
pub mod Parse
pub mod Bounds
pub mod Sound
use webhook_telegram_proxy.Prelude.{ℕ, ℤ, Bool, Text, codes, text_eq, not, ◌&&◌}

pub record ConfigOf (N : Type 0) : Type 0 where
  pub app_host : Text
  pub app_port : N
  pub log_level : Text
  pub environment : Text
  pub telegram_bot_token : Text
  pub telegram_chat_id : Text
  pub telegram_base_url : Text
  pub telegram_proxy_url : Text
  pub webhook_secret : Text
  pub basic_auth_username : Text
  pub basic_auth_password : Text
  pub basic_auth_realm : Text
  pub alert_message_source : Text
  pub alert_local_timezone : Text
  pub alert_template_path : Text
  pub message_parse_mode : Text
  pub http_read_timeout : N
  pub http_write_timeout : N
  pub http_shutdown_timeout : N
  pub http_idle_timeout : N
  pub max_request_body_bytes : N
  pub max_header_bytes : N
  pub max_delivery_attempts : N
  pub retry_base_delay : N
  pub retry_max_delay : N
  pub recovery_interval : N
  pub worker_batch_size : N
  pub store_path : Text
  pub store_max_size_bytes : N
  pub store_rotation_enabled : Bool
  pub store_rotation_high_watermark : N
  pub store_rotation_low_watermark : N
  pub store_retention_delivered : N
  pub store_retention_dead_letter : N
  pub store_rotation_interval : N
  pub store_vacuum_after_rotation : Bool

-- a configuration that was read, and one that was accepted
abbrev pub Settings : Type 0
Settings = ConfigOf ℤ

abbrev pub Config : Type 0
Config = ConfigOf ℕ

module _ {N : Type 0} where
  unfoldable pub basic_auth_enabled : ConfigOf N → Bool
  basic_auth_enabled c =
      not (text_eq c.basic_auth_username (codes ""))
      && not (text_eq c.basic_auth_password (codes ""))

  unfoldable pub uses_template_renderer : ConfigOf N → Bool
  uses_template_renderer c = text_eq c.alert_message_source (codes "template")
