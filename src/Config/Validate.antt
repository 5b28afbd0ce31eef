-- ===== src/Config/Validate.antt =====
-- `Validate`, `Address` and `AlertDisplayLocation` of internal/config/config.go.
use webhook_telegram_proxy.Prelude.{
  Bool, true, false, not, ◌&&◌, ◌||◌, Option, none, some, List, [], ◌∷◌, ◌++◌, Text, codes, text_eq,
  decimal, if◌then◌else◌, trim_space, is_empty, join, Unicode, to_upper, ℤ, pos, is_positive, less,
}
use webhook_telegram_proxy.Errors.{Error, error_text, plain, Result, ok, err}
use webhook_telegram_proxy.Url.{Urls}
use webhook_telegram_proxy.Config.{ConfigOf, Settings, Config, basic_auth_enabled}
use webhook_telegram_proxy.Config.Urls.{validate_telegram_base_url, validate_telegram_proxy_url}
use webhook_telegram_proxy.Template.Durations.{Location}

-- What reading a configuration uses of the libraries: letters, URLs, `time.LoadLocation`, `time.Local`,
-- and `time.ParseDuration` where there is no error.
pub record Libraries : Type 0 where
  pub unicode : Unicode
  pub urls : Urls
  pub load_location : Text → Result Location
  pub local : Location
  pub parse_duration : Text → Option ℤ

-- A condition under which `Validate` reports a problem, with the problem.
abbrev pub Check : Type 0
Check = Bool × Text

unfoldable pub problems_of : List Check → List Text
problems_of [] = []
problems_of ((found, text) ∷ checks) =
    let rest = problems_of checks in if found then text ∷ rest else rest

abbrev pub of_error : Option Error → Check
of_error none = (false, [])
of_error (some e) = (true, error_text e)

abbrev pub is_error {ℓ} : {A : Type ℓ} → Result A → Bool
is_error (ok a) = false
is_error (err e) = true

module _ (libs : Libraries) where
  unfoldable pub text_checks : Settings → List Check
  text_checks c =
      (is_empty c.app_host, codes "app host is required")
      ∷ (
        not (is_positive c.app_port) || less (pos 65535) c.app_port,
        codes "app port must be between 1 and 65535",
      )
      ∷ (is_empty c.telegram_bot_token, codes "telegram bot token is required")
      ∷ (is_empty c.telegram_chat_id, codes "telegram chat id is required")
      ∷ of_error (validate_telegram_base_url libs.urls c.telegram_base_url)
      ∷ of_error (validate_telegram_proxy_url libs.unicode libs.urls c.telegram_proxy_url)
      ∷ (
        not (is_empty c.alert_local_timezone)
            && is_error (libs.load_location c.alert_local_timezone),
        codes "alert local timezone must be a valid IANA timezone",
      )
      ∷ (
        not (text_eq c.alert_message_source (codes "template"))
            && not (text_eq c.alert_message_source (codes "alertmanager")),
        codes "alert message source must be either template or alertmanager",
      )
      ∷ (
        text_eq c.alert_message_source (codes "template") && is_empty c.alert_template_path,
        codes "alert template path is required",
      )
      ∷ (
        (if is_empty c.basic_auth_username
            then not (is_empty c.basic_auth_password)
            else is_empty c.basic_auth_password),
        codes "basic auth username and password must be configured together",
      )
      ∷ (
        basic_auth_enabled c && is_empty c.basic_auth_realm,
        codes "basic auth realm must not be empty when basic auth is enabled",
      )
      ∷ (
        not (text_eq (to_upper libs.unicode c.message_parse_mode) (codes "HTML")),
        codes "only HTML parse mode is supported in v1",
      )
      ∷ []

  unfoldable pub number_checks : Settings → List Check
  number_checks c =
      (not (is_positive c.max_request_body_bytes), codes "max request body bytes must be positive")
      ∷ (not (is_positive c.max_header_bytes), codes "max header bytes must be positive")
      ∷ (not (is_positive c.http_read_timeout), codes "http read timeout must be positive")
      ∷ (not (is_positive c.http_write_timeout), codes "http write timeout must be positive")
      ∷ (not (is_positive c.http_shutdown_timeout), codes "http shutdown timeout must be positive")
      ∷ (not (is_positive c.http_idle_timeout), codes "http idle timeout must be positive")
      ∷ (less c.max_delivery_attempts (pos 1), codes "max delivery attempts must be positive")
      ∷ (
        not (is_positive c.retry_base_delay)
            || not (is_positive c.retry_max_delay)
            || less c.retry_max_delay c.retry_base_delay,
        codes "retry delays must be positive and base must not exceed max",
      )
      ∷ (not (is_positive c.recovery_interval), codes "recovery interval must be positive")
      ∷ (not (is_positive c.worker_batch_size), codes "worker batch size must be positive")
      ∷ (is_empty c.store_path, codes "store path is required")
      ∷ (not (is_positive c.store_max_size_bytes), codes "store max size must be positive")
      ∷ (
        not (is_positive c.store_rotation_high_watermark)
            || less c.store_max_size_bytes c.store_rotation_high_watermark,
        codes "store rotation high watermark must be positive and not exceed store max size",
      )
      ∷ (
        not (is_positive c.store_rotation_low_watermark)
            || not (less c.store_rotation_low_watermark c.store_rotation_high_watermark),
        codes "store rotation low watermark must be positive and below high watermark",
      )
      ∷ (
        not (is_positive c.store_retention_delivered)
            || not (is_positive c.store_retention_dead_letter),
        codes "store retention windows must be positive",
      )
      ∷ (
        not (is_positive c.store_rotation_interval),
        codes "store rotation interval must be positive",
      )
      ∷ []

  abbrev pub reported : List Text → Option Error
  reported [] = none
  reported (p ∷ problems) = some (plain (join (codes "; ") (p ∷ problems)))

  unfoldable pub validate : Settings → Option Error
  validate c = reported (problems_of (text_checks c ++ number_checks c))

  abbrev pub location_or_local : Result Location → Location
  location_or_local (ok location) = location
  location_or_local (err e) = libs.local

  unfoldable pub alert_display_location : {N : Type 0} → ConfigOf N → Location
  alert_display_location c =
      if is_empty (trim_space c.alert_local_timezone)
      then libs.local
      else location_or_local (libs.load_location c.alert_local_timezone)

unfoldable pub address : Config → Text
address c = c.app_host ++ (codes ":" ++ decimal c.app_port)
