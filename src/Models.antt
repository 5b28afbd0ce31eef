-- ===== src/Models.antt =====
-- The webhook payload (internal/models/grafana.go). A map is the list of its entries with distinct
-- keys, in the order in which an iteration visits them. A time is in nanoseconds since Go's zero time.
-- A value of `values` is kept as its text under `%v`.
use webhook_telegram_proxy.Prelude.{ℤ, ℕ, suc, List, [], ◌∷◌, Text, codes, text_eq, if◌then◌else◌}

abbrev pub StringMap : Type 0
StringMap = List (Text × Text)

-- values[key], which is empty for a missing key
unfoldable pub value_of : StringMap → Text → Text
value_of [] key = []
value_of ((k, v) ∷ m) key = let rest = value_of m key in if text_eq k key then v else rest

pub record Alert : Type 0 where
  pub status : Text
  pub labels : StringMap
  pub annotations : StringMap
  pub starts_at : ℕ
  pub ends_at : ℕ
  pub generator_url : Text
  pub fingerprint : Text
  pub silence_url : Text
  pub dashboard_url : Text
  pub panel_url : Text
  pub values : StringMap
  pub value_string : Text

pub record WebhookPayload : Type 0 where
  pub receiver : Text
  pub status : Text
  pub org_id : ℤ
  pub alerts : List Alert
  pub group_labels : StringMap
  pub common_labels : StringMap
  pub common_annotations : StringMap
  pub external_url : Text
  pub version : Text
  pub group_key : Text
  pub truncated_alerts : ℤ
  pub title : Text
  pub state : Text
  pub message : Text

-- the loop of `FiringCount` and `ResolvedCount`
unfoldable pub count_status : Text → List Alert → ℕ
count_status s [] = 0
count_status s (a ∷ rest) = let n = count_status s rest in if text_eq a.status s then suc n else n

unfoldable pub firing_count : WebhookPayload → ℕ
firing_count p = count_status (codes "firing") p.alerts

unfoldable pub resolved_count : WebhookPayload → ℕ
resolved_count p = count_status (codes "resolved") p.alerts
