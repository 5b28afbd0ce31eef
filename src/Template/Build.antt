-- ===== src/Template/Build.antt =====
-- `BuildData` of internal/template/renderer.go.
pub mod Plain
use webhook_telegram_proxy.Prelude.{
  plus_wrapped, Unicode, to_upper, ℕ, suc, ◌+◌, Option, List, [], ◌∷◌, Text, codes, length,
}
use webhook_telegram_proxy.Models.{
  StringMap, value_of, Alert, WebhookPayload, firing_count, resolved_count,
}
use webhook_telegram_proxy.Template.{AlertData, MessageData}
use webhook_telegram_proxy.Template.Sanitize.{
  sanitize, sanitize_string_map, first_non_empty, status_icon, env_icon,
}
use webhook_telegram_proxy.Template.Durations.{
  Location, format_utc_time, format_local_time, since_time, duration_between,
}
use webhook_telegram_proxy.Template.Labels.{
  format_values, render_where_lines, render_group_context, environment_name, build_action_links,
}

-- What a renderer uses of the libraries: letters, time formats, the location it displays times in, and
-- the clock at each alert.
pub record Display : Type 0 where
  pub unicode : Unicode
  pub utc : ℕ → Text
  pub location : Option Location
  pub now : ℕ → ℕ

module _ (display : Display) where
  unfoldable pub build_alert : ℕ → Alert → AlertData
  build_alert index a =
      let labels = sanitize_string_map a.labels 128 1024 [] in
      let annotations = sanitize_string_map a.annotations 128 2048 [] in
      record {
        status = sanitize a.status 32;
        name =
            sanitize
              (first_non_empty (
                value_of a.labels (codes "alertname") ∷ a.fingerprint ∷ codes "unnamed-alert" ∷ []))
              256;
        severity =
            sanitize (first_non_empty (value_of a.labels (codes "severity") ∷ codes "unknown" ∷ []))
              64;
        summary =
            sanitize
              (first_non_empty (
                value_of a.annotations (codes "summary")
                ∷ value_of a.annotations (codes "message")
                ∷ []))
              1024;
        description = sanitize (value_of a.annotations (codes "description")) 4096;
        starts_at = a.starts_at;
        ends_at = a.ends_at;
        generator_url = sanitize a.generator_url 2048;
        silence_url = sanitize a.silence_url 2048;
        dashboard_url = sanitize a.dashboard_url 2048;
        panel_url = sanitize a.panel_url 2048;
        value_string =
            sanitize (first_non_empty (a.value_string ∷ format_values a.values ∷ [])) 1024;
        labels = labels;
        annotations = annotations;
        where_lines = render_where_lines display.unicode labels;
        since_utc = format_utc_time display.utc a.starts_at;
        since_local = format_local_time display.location a.starts_at;
        since_ago = since_time (display.now index) a.starts_at;
        resolved_utc = format_utc_time display.utc a.ends_at;
        resolved_local = format_local_time display.location a.ends_at;
        duration = duration_between a.starts_at a.ends_at;
        action_links =
            build_action_links annotations (sanitize a.generator_url 2048)
              (sanitize a.dashboard_url 2048) (sanitize a.panel_url 2048)
              (sanitize a.silence_url 2048);
      }

  unfoldable pub build_alerts : ℕ → List Alert → List AlertData
  build_alerts index [] = []
  build_alerts index (a ∷ rest) = build_alert index a ∷ build_alerts (suc index) rest

  unfoldable pub build_data : WebhookPayload → MessageData
  build_data p =
      let common_labels = sanitize_string_map p.common_labels 128 1024 [] in
      let env_name = environment_name display.unicode common_labels in
      record {
        receiver = sanitize p.receiver 128;
        status = sanitize p.status 32;
        group_key = sanitize p.group_key 256;
        external_url = sanitize p.external_url 2048;
        title = sanitize p.title 256;
        message = sanitize p.message 2048;
        firing_count = firing_count p;
        resolved_count = resolved_count p;
        total_alerts = plus_wrapped (length p.alerts) p.truncated_alerts;
        truncated_alerts = p.truncated_alerts;
        common_labels = common_labels;
        common_annotations = sanitize_string_map p.common_annotations 128 2048 [];
        alerts = build_alerts 0 p.alerts;
        part_index = 1;
        part_count = 1;
        status_icon = status_icon display.unicode p.status;
        environment_name = to_upper display.unicode env_name;
        environment_icon = env_icon display.unicode env_name;
        group_context = render_group_context display.unicode common_labels;
      }
