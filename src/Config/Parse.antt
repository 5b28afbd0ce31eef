-- ===== src/Config/Parse.antt =====
-- `Parse` of internal/config/config.go with its readers of environment variables. The flags' parser is a
-- parameter: it is given the defaults, which the variables have set, and answers with every flag's value.
use webhook_telegram_proxy.Prelude.{
  ℕ, Bool, true, false, Option, none, some, List, [], ◌∷◌, Text, codes, text_eq, any, if◌then◌else◌,
  trim_space, is_empty, ℤ, pos, parse_int, times_wrapped,
}
use webhook_telegram_proxy.Errors.{Error, Result, ok, err, and_then}
use webhook_telegram_proxy.Config.{Settings}
use webhook_telegram_proxy.Config.Validate.{Libraries, validate}

abbrev pub hour : ℕ
hour = 3_600_000_000_000

-- The values of the flags. The retention windows are flags in hours; in `settings` they are not set.
pub record Flags : Type 0 where
  pub settings : Settings
  pub delivered_retention_hours : ℤ
  pub dead_letter_retention_hours : ℤ

-- strconv.ParseBool, where there is no error
abbrev pub is_one_of : Text → List Text → Bool
is_one_of s texts = any (λ t. text_eq s t) texts

unfoldable pub parse_bool : Text → Option Bool
parse_bool s =
    if is_one_of s
      (codes "1" ∷ codes "t" ∷ codes "T" ∷ codes "TRUE" ∷ codes "true" ∷ codes "True" ∷ [])
    then some true
    else if is_one_of s
        (codes "0" ∷ codes "f" ∷ codes "F" ∷ codes "FALSE" ∷ codes "false" ∷ codes "False" ∷ [])
    then some false
    else none

abbrev pub or_fallback {ℓ} : {A : Type ℓ} → A → Option A → A
or_fallback fallback none = fallback
or_fallback fallback (some a) = a

-- what `envInt`, `envInt64`, `envBool` and `envDuration` do with the variable's value
unfoldable pub env_parsed {ℓ} : {A : Type ℓ} → (Text → Option A) → Option Text → A → A
env_parsed parse none fallback = fallback
env_parsed parse (some raw) fallback =
    if is_empty (trim_space raw) then fallback else or_fallback fallback (parse (trim_space raw))

unfoldable pub env_trimmed : Option Text → Text → Text
env_trimmed none fallback = fallback
env_trimmed (some value) fallback = trim_space value

-- `lookup` is os.LookupEnv.
module _ (libs : Libraries) (lookup : Text → Option Text) where
  abbrev pub env_string : Text → Text → Text
  env_string key fallback = env_trimmed (lookup key) fallback

  -- `envInt` and `envInt64`
  abbrev pub env_int : Text → ℤ → ℤ
  env_int key fallback = env_parsed parse_int (lookup key) fallback

  abbrev pub env_bool : Text → Bool → Bool
  env_bool key fallback = env_parsed parse_bool (lookup key) fallback

  abbrev pub env_duration : Text → ℤ → ℤ
  env_duration key fallback = env_parsed libs.parse_duration (lookup key) fallback

  unfoldable pub default_settings : Settings
  default_settings = record {
    app_host = env_string (codes "APP_HOST") (codes "0.0.0.0");
    app_port = env_int (codes "APP_PORT") (pos 8080);
    log_level = env_string (codes "LOG_LEVEL") (codes "INFO");
    environment = env_string (codes "ENVIRONMENT") (codes "production");
    telegram_bot_token = env_string (codes "TELEGRAM_BOT_TOKEN") (codes "");
    telegram_chat_id = env_string (codes "TELEGRAM_CHAT_ID") (codes "");
    telegram_base_url = env_string (codes "TELEGRAM_BASE_URL") (codes "");
    telegram_proxy_url = env_string (codes "TELEGRAM_PROXY_URL") (codes "");
    webhook_secret = env_string (codes "WEBHOOK_SECRET") (codes "");
    basic_auth_username = env_string (codes "BASIC_AUTH_USERNAME") (codes "");
    basic_auth_password = env_string (codes "BASIC_AUTH_PASSWORD") (codes "");
    basic_auth_realm = env_string (codes "BASIC_AUTH_REALM") (codes "webhook-telegram-proxy");
    alert_message_source = env_string (codes "ALERT_MESSAGE_SOURCE") (codes "template");
    alert_local_timezone = env_string (codes "ALERT_LOCAL_TIMEZONE") (codes "");
    alert_template_path =
        env_string (codes "ALERT_TEMPLATE_PATH") (codes "templates/telegram_alert.tmpl");
    message_parse_mode = env_string (codes "MESSAGE_PARSE_MODE") (codes "HTML");
    http_read_timeout = env_duration (codes "HTTP_READ_TIMEOUT") (pos 5_000_000_000);
    http_write_timeout = env_duration (codes "HTTP_WRITE_TIMEOUT") (pos 10_000_000_000);
    http_shutdown_timeout = env_duration (codes "HTTP_SHUTDOWN_TIMEOUT") (pos 10_000_000_000);
    http_idle_timeout = env_duration (codes "HTTP_IDLE_TIMEOUT") (pos 60_000_000_000);
    max_request_body_bytes = env_int (codes "MAX_REQUEST_BODY_BYTES") (pos 1048576);
    max_header_bytes = env_int (codes "MAX_HEADER_BYTES") (pos 1048576);
    max_delivery_attempts = env_int (codes "MAX_DELIVERY_ATTEMPTS") (pos 5);
    retry_base_delay = env_duration (codes "RETRY_BASE_DELAY") (pos 2_000_000_000);
    retry_max_delay = env_duration (codes "RETRY_MAX_DELAY") (pos 120_000_000_000);
    recovery_interval = env_duration (codes "RECOVERY_INTERVAL") (pos 15_000_000_000);
    worker_batch_size = env_int (codes "WORKER_BATCH_SIZE") (pos 32);
    store_path = env_string (codes "STORE_PATH") (codes "data/webhook-telegram-proxy.db");
    store_max_size_bytes = env_int (codes "STORE_MAX_SIZE_BYTES") (pos 104857600);
    store_rotation_enabled = env_bool (codes "STORE_ROTATION_ENABLED") true;
    store_rotation_high_watermark =
        env_int (codes "STORE_ROTATION_HIGH_WATERMARK_BYTES") (pos 83886080);
    store_rotation_low_watermark =
        env_int (codes "STORE_ROTATION_LOW_WATERMARK_BYTES") (pos 62914560);
    store_rotation_interval = env_duration (codes "STORE_ROTATION_INTERVAL") (pos 60_000_000_000);
    store_vacuum_after_rotation = env_bool (codes "STORE_VACUUM_AFTER_ROTATION") false;
    store_retention_delivered = pos 0;
    store_retention_dead_letter = pos 0;
  }

  unfoldable pub default_flags : Flags
  default_flags = record {
    settings = default_settings;
    delivered_retention_hours = env_int (codes "STORE_RETENTION_DELIVERED_HOURS") (pos 168);
    dead_letter_retention_hours = env_int (codes "STORE_RETENTION_DEAD_LETTER_HOURS") (pos 720);
  }

unfoldable pub with_retention : Flags → Settings
with_retention flags = record flags.settings {
  store_retention_delivered = times_wrapped flags.delivered_retention_hours hour;
  store_retention_dead_letter = times_wrapped flags.dead_letter_retention_hours hour;
}

abbrev pub if_no_problem : Settings → Option Error → Result Settings
if_no_problem c none = ok c
if_no_problem c (some e) = err e

-- after the flags were read
abbrev pub parsed_flags : Libraries → Flags → Result Settings
parsed_flags libs flags =
    if_no_problem (with_retention flags) (validate libs (with_retention flags))

unfoldable pub parse : Libraries → (Text → Option Text) → (Flags → Result Flags) → Result Settings
parse libs lookup parse_flags =
    and_then (parse_flags (default_flags libs lookup)) (parsed_flags libs)
