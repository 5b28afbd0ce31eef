-- ===== src/Config/Bounds.antt =====
-- The numbers of a configuration as natural numbers, and the bounds on them.
use webhook_telegram_proxy.Prelude.{
  ◌≤◌, ◌<◌, Bool, true, false, not, ◌||◌, none, List, [], ◌∷◌, ◌≡◌, refl, arith, Text, is_empty,
  All, ℤ, pos, negsuc, is_positive, less, natural, natural-pos, Bool-cases, inl, inr,
}
use webhook_telegram_proxy.Config.{Settings, Config}
use webhook_telegram_proxy.Config.Validate.{Libraries, Check, problems_of, reported}

abbrev pub IsClear : Check → Type 0
IsClear check = check.0 ≡ false

pub problems_of-IsClear : (checks : List Check) → problems_of checks ≡ [] → All IsClear checks
unfolding problems_of
problems_of-IsClear [] h = tt
problems_of-IsClear ((found, text) ∷ checks) h = elim (Bool-cases found) [
  | inl bad ↦ absurd (let wrong = rw bad at h in cc)
  | inr clear ↦ let rest = rw clear at h in (clear, problems_of-IsClear checks rest)
]

pub reported-none :
    (libs : Libraries) (problems : List Text) → reported libs problems ≡ none → problems ≡ []
reported-none libs [] h = refl
reported-none libs (p ∷ problems) h = cc

pub positive-not : (z : ℤ) → not (is_positive z) ≡ false → is_positive z ≡ true
positive-not z h = ground arith

-- the same integer in both forms, and the bounds of a range
pub less-natural :
    (a b : ℤ)
    → is_positive a ≡ true
    → is_positive b ≡ true
    → less a b ≡ false
    → natural b ≤ natural a
less-natural (pos a) (pos b) ha hb h = ground arith
less-natural (negsuc a) b ha hb h = cc
less-natural (pos a) (negsuc b) ha hb h = cc

pub or-false : (a b : Bool) → (a || b) ≡ false → (a ≡ false) × (b ≡ false)
or-false a b h = ground arith

pub attempts-positive : (z : ℤ) → less z (pos 1) ≡ false → is_positive z ≡ true
attempts-positive (pos n) h = ground arith
attempts-positive (negsuc n) h = cc

pub below-natural :
    (a b : ℤ)
    → is_positive a ≡ true
    → is_positive b ≡ true
    → not (less a b) ≡ false
    → natural a < natural b
below-natural (pos a) (pos b) ha hb h = ground arith
below-natural (negsuc a) b ha hb h = cc
below-natural (pos a) (negsuc b) ha hb h = cc

-- the numbers of an accepted configuration, as the services use them, and back
unfoldable pub natural_config : Settings → Config
natural_config c = record {
  app_host = c.app_host;
  app_port = natural c.app_port;
  log_level = c.log_level;
  environment = c.environment;
  telegram_bot_token = c.telegram_bot_token;
  telegram_chat_id = c.telegram_chat_id;
  telegram_base_url = c.telegram_base_url;
  telegram_proxy_url = c.telegram_proxy_url;
  webhook_secret = c.webhook_secret;
  basic_auth_username = c.basic_auth_username;
  basic_auth_password = c.basic_auth_password;
  basic_auth_realm = c.basic_auth_realm;
  alert_message_source = c.alert_message_source;
  alert_local_timezone = c.alert_local_timezone;
  alert_template_path = c.alert_template_path;
  message_parse_mode = c.message_parse_mode;
  http_read_timeout = natural c.http_read_timeout;
  http_write_timeout = natural c.http_write_timeout;
  http_shutdown_timeout = natural c.http_shutdown_timeout;
  http_idle_timeout = natural c.http_idle_timeout;
  max_request_body_bytes = natural c.max_request_body_bytes;
  max_header_bytes = natural c.max_header_bytes;
  max_delivery_attempts = natural c.max_delivery_attempts;
  retry_base_delay = natural c.retry_base_delay;
  retry_max_delay = natural c.retry_max_delay;
  recovery_interval = natural c.recovery_interval;
  worker_batch_size = natural c.worker_batch_size;
  store_path = c.store_path;
  store_max_size_bytes = natural c.store_max_size_bytes;
  store_rotation_enabled = c.store_rotation_enabled;
  store_rotation_high_watermark = natural c.store_rotation_high_watermark;
  store_rotation_low_watermark = natural c.store_rotation_low_watermark;
  store_retention_delivered = natural c.store_retention_delivered;
  store_retention_dead_letter = natural c.store_retention_dead_letter;
  store_rotation_interval = natural c.store_rotation_interval;
  store_vacuum_after_rotation = c.store_vacuum_after_rotation;
}

unfoldable pub integer_config : Config → Settings
integer_config c = record {
  app_host = c.app_host;
  app_port = pos c.app_port;
  log_level = c.log_level;
  environment = c.environment;
  telegram_bot_token = c.telegram_bot_token;
  telegram_chat_id = c.telegram_chat_id;
  telegram_base_url = c.telegram_base_url;
  telegram_proxy_url = c.telegram_proxy_url;
  webhook_secret = c.webhook_secret;
  basic_auth_username = c.basic_auth_username;
  basic_auth_password = c.basic_auth_password;
  basic_auth_realm = c.basic_auth_realm;
  alert_message_source = c.alert_message_source;
  alert_local_timezone = c.alert_local_timezone;
  alert_template_path = c.alert_template_path;
  message_parse_mode = c.message_parse_mode;
  http_read_timeout = pos c.http_read_timeout;
  http_write_timeout = pos c.http_write_timeout;
  http_shutdown_timeout = pos c.http_shutdown_timeout;
  http_idle_timeout = pos c.http_idle_timeout;
  max_request_body_bytes = pos c.max_request_body_bytes;
  max_header_bytes = pos c.max_header_bytes;
  max_delivery_attempts = pos c.max_delivery_attempts;
  retry_base_delay = pos c.retry_base_delay;
  retry_max_delay = pos c.retry_max_delay;
  recovery_interval = pos c.recovery_interval;
  worker_batch_size = pos c.worker_batch_size;
  store_path = c.store_path;
  store_max_size_bytes = pos c.store_max_size_bytes;
  store_rotation_enabled = c.store_rotation_enabled;
  store_rotation_high_watermark = pos c.store_rotation_high_watermark;
  store_rotation_low_watermark = pos c.store_rotation_low_watermark;
  store_retention_delivered = pos c.store_retention_delivered;
  store_retention_dead_letter = pos c.store_retention_dead_letter;
  store_rotation_interval = pos c.store_rotation_interval;
  store_vacuum_after_rotation = c.store_vacuum_after_rotation;
}

pub record Positives (c : Settings) : Type 0 where
  pub app_port_positive : is_positive c.app_port ≡ true
  pub http_read_timeout_positive : is_positive c.http_read_timeout ≡ true
  pub http_write_timeout_positive : is_positive c.http_write_timeout ≡ true
  pub http_shutdown_timeout_positive : is_positive c.http_shutdown_timeout ≡ true
  pub http_idle_timeout_positive : is_positive c.http_idle_timeout ≡ true
  pub max_request_body_bytes_positive : is_positive c.max_request_body_bytes ≡ true
  pub max_header_bytes_positive : is_positive c.max_header_bytes ≡ true
  pub max_delivery_attempts_positive : is_positive c.max_delivery_attempts ≡ true
  pub retry_base_delay_positive : is_positive c.retry_base_delay ≡ true
  pub retry_max_delay_positive : is_positive c.retry_max_delay ≡ true
  pub recovery_interval_positive : is_positive c.recovery_interval ≡ true
  pub worker_batch_size_positive : is_positive c.worker_batch_size ≡ true
  pub store_max_size_bytes_positive : is_positive c.store_max_size_bytes ≡ true
  pub store_rotation_high_watermark_positive : is_positive c.store_rotation_high_watermark ≡ true
  pub store_rotation_low_watermark_positive : is_positive c.store_rotation_low_watermark ≡ true
  pub store_retention_delivered_positive : is_positive c.store_retention_delivered ≡ true
  pub store_retention_dead_letter_positive : is_positive c.store_retention_dead_letter ≡ true
  pub store_rotation_interval_positive : is_positive c.store_rotation_interval ≡ true

-- What the services rely on.
pub record IsSound (c : Config) : Type 0 where
  pub port_range : (0 < c.app_port) × (c.app_port ≤ 65535)
  pub token_given : is_empty c.telegram_bot_token ≡ false
  pub chat_given : is_empty c.telegram_chat_id ≡ false
  pub body_limit : (0 < c.max_request_body_bytes) × (0 < c.max_header_bytes)
  pub timeouts :
      (0 < c.http_read_timeout)
      × ((0 < c.http_write_timeout) × ((0 < c.http_shutdown_timeout) × (0 < c.http_idle_timeout)))
  pub attempts : 0 < c.max_delivery_attempts
  pub delays : (0 < c.retry_base_delay) × (c.retry_base_delay ≤ c.retry_max_delay)
  pub intervals : (0 < c.recovery_interval) × (0 < c.store_rotation_interval)
  pub batch : 0 < c.worker_batch_size
  pub watermarks :
      (0 < c.store_rotation_low_watermark)
      × ((c.store_rotation_low_watermark < c.store_rotation_high_watermark)
          × (c.store_rotation_high_watermark ≤ c.store_max_size_bytes))
  pub retention : (0 < c.store_retention_delivered) × (0 < c.store_retention_dead_letter)

pub integer_config-natural_config :
    (c : Settings) → Positives c → integer_config (natural_config c) ≡ c
unfolding natural_config integer_config
integer_config-natural_config c p = λ i. record {
  app_host = c.app_host;
  app_port = natural-pos c.app_port p.app_port_positive i;
  log_level = c.log_level;
  environment = c.environment;
  telegram_bot_token = c.telegram_bot_token;
  telegram_chat_id = c.telegram_chat_id;
  telegram_base_url = c.telegram_base_url;
  telegram_proxy_url = c.telegram_proxy_url;
  webhook_secret = c.webhook_secret;
  basic_auth_username = c.basic_auth_username;
  basic_auth_password = c.basic_auth_password;
  basic_auth_realm = c.basic_auth_realm;
  alert_message_source = c.alert_message_source;
  alert_local_timezone = c.alert_local_timezone;
  alert_template_path = c.alert_template_path;
  message_parse_mode = c.message_parse_mode;
  http_read_timeout = natural-pos c.http_read_timeout p.http_read_timeout_positive i;
  http_write_timeout = natural-pos c.http_write_timeout p.http_write_timeout_positive i;
  http_shutdown_timeout = natural-pos c.http_shutdown_timeout p.http_shutdown_timeout_positive i;
  http_idle_timeout = natural-pos c.http_idle_timeout p.http_idle_timeout_positive i;
  max_request_body_bytes = natural-pos c.max_request_body_bytes p.max_request_body_bytes_positive i;
  max_header_bytes = natural-pos c.max_header_bytes p.max_header_bytes_positive i;
  max_delivery_attempts = natural-pos c.max_delivery_attempts p.max_delivery_attempts_positive i;
  retry_base_delay = natural-pos c.retry_base_delay p.retry_base_delay_positive i;
  retry_max_delay = natural-pos c.retry_max_delay p.retry_max_delay_positive i;
  recovery_interval = natural-pos c.recovery_interval p.recovery_interval_positive i;
  worker_batch_size = natural-pos c.worker_batch_size p.worker_batch_size_positive i;
  store_path = c.store_path;
  store_max_size_bytes = natural-pos c.store_max_size_bytes p.store_max_size_bytes_positive i;
  store_rotation_enabled = c.store_rotation_enabled;
  store_rotation_high_watermark =
      natural-pos c.store_rotation_high_watermark p.store_rotation_high_watermark_positive i;
  store_rotation_low_watermark =
      natural-pos c.store_rotation_low_watermark p.store_rotation_low_watermark_positive i;
  store_retention_delivered =
      natural-pos c.store_retention_delivered p.store_retention_delivered_positive i;
  store_retention_dead_letter =
      natural-pos c.store_retention_dead_letter p.store_retention_dead_letter_positive i;
  store_rotation_interval =
      natural-pos c.store_rotation_interval p.store_rotation_interval_positive i;
  store_vacuum_after_rotation = c.store_vacuum_after_rotation;
}
