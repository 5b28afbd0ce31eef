-- ===== src/Tests.antt =====
-- A concrete environment, configuration and table, and the runs and instances on them.
pub mod Delivery
pub mod Messages
pub mod Acceptance
pub mod Rendering
pub mod Settings
pub mod Client
pub mod Server
use webhook_telegram_proxy.Prelude.{
  pos, Unicode, ◌==◌, ◌-◌, ◌&&◌, leb, if◌then◌else◌, refl, ◌≡◌, ℕ, ◌+◌, String, Bool, true, false,
  Option, none, some, List, [], ◌∷◌, Text, codes, decimal,
}
use webhook_telegram_proxy.Errors.{Result, ok}
use webhook_telegram_proxy.Config.{Config}
use webhook_telegram_proxy.Models.{WebhookPayload, Alert}
use webhook_telegram_proxy.Template.Build.{Display}
use webhook_telegram_proxy.Template.{MessageData, AlertData}
use webhook_telegram_proxy.Store.Record.{Record, Status, queued, sending, delivered, Table}
use webhook_telegram_proxy.Runtime.{Env, World, FileInfo}
use webhook_telegram_proxy.Runtime.Quiet.{IsQuiet}

abbrev pub config : Text → Config
config source = record {
  app_host = codes "0.0.0.0";
  app_port = 8080;
  log_level = codes "info";
  environment = codes "test";
  telegram_bot_token = codes "token";
  telegram_chat_id = codes "chat";
  telegram_base_url = codes "https://api.telegram.org";
  telegram_proxy_url = [];
  webhook_secret = codes "secret";
  basic_auth_username = [];
  basic_auth_password = [];
  basic_auth_realm = [];
  alert_message_source = source;
  alert_local_timezone = codes "UTC";
  alert_template_path = [];
  message_parse_mode = codes "HTML";
  http_read_timeout = 10;
  http_write_timeout = 10;
  http_shutdown_timeout = 10;
  http_idle_timeout = 10;
  max_request_body_bytes = 1000;
  max_header_bytes = 1000;
  max_delivery_attempts = 3;
  retry_base_delay = 10;
  retry_max_delay = 100;
  recovery_interval = 60;
  worker_batch_size = 10;
  store_path = codes "store.db";
  store_max_size_bytes = 1000;
  store_rotation_enabled = true;
  store_rotation_high_watermark = 900;
  store_rotation_low_watermark = 800;
  store_retention_delivered = 100000;
  store_retention_dead_letter = 100000;
  store_rotation_interval = 60;
  store_vacuum_after_rotation = false;
}

abbrev pub alert : Text → Alert
alert name = record {
  status = codes "firing";
  labels = (codes "alertname", name) ∷ [];
  annotations = [];
  starts_at = 5;
  ends_at = 9;
  generator_url = [];
  fingerprint = name;
  silence_url = [];
  dashboard_url = [];
  panel_url = [];
  values = [];
  value_string = [];
}

abbrev pub payload : WebhookPayload
payload = record {
  receiver = codes "telegram";
  status = codes "firing";
  org_id = pos 1;
  alerts = alert (codes "disk") ∷ alert (codes "load") ∷ [];
  group_labels = [];
  common_labels = [];
  common_annotations = [];
  external_url = [];
  version = codes "1";
  group_key = [];
  truncated_alerts = pos 0;
  title = codes "title";
  state = codes "alerting";
  message = codes "disk is full";
}

abbrev pub alert_data : Text → AlertData
alert_data name = record {
  status = codes "firing";
  name = name;
  severity = codes "critical";
  summary = [];
  description = [];
  starts_at = 5;
  ends_at = 9;
  generator_url = [];
  silence_url = [];
  dashboard_url = [];
  panel_url = [];
  value_string = [];
  labels = [];
  annotations = [];
  where_lines = [];
  since_utc = [];
  since_local = [];
  since_ago = [];
  resolved_utc = [];
  resolved_local = [];
  duration = [];
  action_links = [];
}

abbrev pub message_data : MessageData
message_data = record {
  receiver = codes "telegram";
  status = codes "firing";
  group_key = [];
  external_url = [];
  title = codes "title";
  message = codes "disk is full";
  firing_count = 2;
  resolved_count = 0;
  total_alerts = pos 2;
  truncated_alerts = pos 0;
  common_labels = [];
  common_annotations = [];
  alerts = alert_data (codes "disk") ∷ alert_data (codes "load") ∷ [];
  part_index = 1;
  part_count = 1;
  status_icon = [];
  environment_name = [];
  environment_icon = [];
  group_context = [];
}

-- ASCII letters, and times printed as numbers
abbrev pub ascii : Unicode
ascii = record {
  lower = λ c. if leb b'A' c && leb c b'Z' then c + 32 else c;
  upper = λ c. if leb b'a' c && leb c b'z' then c - 32 else c;
  same_fold = λ c d. c == d;
}

abbrev pub display : Display
display = record { unicode = ascii; utc = decimal; location = none; now = λ n. 1000 + n }

-- Every statement is answered, the clock advances by one at each call, and Telegram accepts all.
abbrev pub calm : Env
calm = record {
  fault = λ _. none;
  now = λ n. 1000 + n;
  canceled = λ _. false;
  reply = λ n _. ok (n + 1);
  jitter = λ _ base. base;
  stat = λ _ _ _. FileInfo.size 100;
  random_id = λ _. ok "e2";
  decode_payload = λ _. ok payload;
  display = λ _. display;
  renderer = λ _. none;
  format_time = decimal;
  sha256_hex = λ _. "k1";
  cfg = config (codes "alertmanager");
}

pub calm-IsQuiet : IsQuiet calm
calm-IsQuiet = record { answers = λ n. refl; open_context = λ n. refl }

abbrev pub row : Status → List Text → ℕ → Record
row s parts sent = record {
  event_id = "e1";
  idempotency_key = "k1";
  status = s;
  original_payload = [];
  rendered_message = [];
  rendered_parts = parts;
  split_count = 0;
  sent_parts = sent;
  attempt_count = 0;
  next_retry_at = none;
  last_error = [];
  telegram_chat_id = [];
  telegram_message_id = none;
  created_at = 1;
  updated_at = 1;
  delivered_at = none;
  last_attempt_at = none;
}

abbrev pub world : Record → World
world r = record { table = r ∷ []; sent = []; calls = 0; metrics = [] }
