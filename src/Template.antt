-- ===== src/Template.antt =====
-- The data that an alert template is executed on (internal/template/renderer.go). A map is a list of
-- entries, as in Models.
pub mod Sanitize
pub mod Durations
pub mod Labels
pub mod Build
use webhook_telegram_proxy.Prelude.{
  plus_wrapped, ℤ, ℕ, suc, ◌+◌, List, [], ◌∷◌, Text, codes, text_eq, length, if◌then◌else◌,
}
use webhook_telegram_proxy.Models.{StringMap}

abbrev pub max_telegram_message_chars : ℕ
max_telegram_message_chars = 4096

pub record ActionLink : Type 0 where
  pub label : Text
  pub url : Text

pub record AlertData : Type 0 where
  pub status : Text
  pub name : Text
  pub severity : Text
  pub summary : Text
  pub description : Text
  pub starts_at : ℕ
  pub ends_at : ℕ
  pub generator_url : Text
  pub silence_url : Text
  pub dashboard_url : Text
  pub panel_url : Text
  pub value_string : Text
  pub labels : StringMap
  pub annotations : StringMap
  pub where_lines : List Text
  pub since_utc : Text
  pub since_local : Text
  pub since_ago : Text
  pub resolved_utc : Text
  pub resolved_local : Text
  pub duration : Text
  pub action_links : List ActionLink

pub record MessageData : Type 0 where
  pub receiver : Text
  pub status : Text
  pub group_key : Text
  pub external_url : Text
  pub title : Text
  pub message : Text
  pub firing_count : ℕ
  pub resolved_count : ℕ
  pub total_alerts : ℤ
  pub truncated_alerts : ℤ
  pub common_labels : StringMap
  pub common_annotations : StringMap
  pub alerts : List AlertData
  pub part_index : ℕ
  pub part_count : ℕ
  pub status_icon : Text
  pub environment_name : Text
  pub environment_icon : Text
  pub group_context : Text

-- the loop of `CloneWithAlerts` for one status
abbrev pub count_alerts : Text → List AlertData → ℕ
count_alerts s [] = 0
count_alerts s (a ∷ rest) = let n = count_alerts s rest in if text_eq a.status s then suc n else n

unfoldable pub clone_with_alerts : MessageData → List AlertData → ℕ → ℕ → MessageData
clone_with_alerts content alerts index count = record content {
  alerts = alerts;
  total_alerts = plus_wrapped (length alerts) content.truncated_alerts;
  firing_count = count_alerts (codes "firing") alerts;
  resolved_count = count_alerts (codes "resolved") alerts;
  part_index = index;
  part_count = count;
}
