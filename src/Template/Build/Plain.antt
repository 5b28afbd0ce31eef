-- ===== src/Template/Build/Plain.antt =====
-- What `build_data` takes from the payload has no character of HTML markup.
use webhook_telegram_proxy.Prelude.{
  ℕ, suc, List, [], ◌∷◌, refl, Text, codes, All, All-append, is_empty, if-holds,
}
use webhook_telegram_proxy.Models.{Alert, WebhookPayload}
use webhook_telegram_proxy.Template.{ActionLink, AlertData, MessageData}
use webhook_telegram_proxy.Template.Sanitize.{sanitize}
use webhook_telegram_proxy.Template.Sanitize.Plain.{IsPlain, literal-IsPlain}
use webhook_telegram_proxy.Template.Labels.{link_unless_empty, build_action_links}
use webhook_telegram_proxy.Template.Labels.Plain.{
  IsPlainMap, value_of-IsPlain, sanitize-IsPlain, sanitize_string_map-IsPlainMap,
  trim_space-IsPlain, render_where_lines-IsPlain, render_group_context-IsPlain,
}
use webhook_telegram_proxy.Template.Build.{Display, build_alert, build_alerts, build_data}

abbrev pub IsPlainLink : ActionLink → Type 0
IsPlainLink l = IsPlain l.label × IsPlain l.url

-- the fields that hold the payload's texts
pub record IsPlainAlert (a : AlertData) : Type 0 where
  pub status_plain : IsPlain a.status
  pub name_plain : IsPlain a.name
  pub severity_plain : IsPlain a.severity
  pub summary_plain : IsPlain a.summary
  pub description_plain : IsPlain a.description
  pub urls_plain :
      All IsPlain (a.generator_url ∷ a.silence_url ∷ a.dashboard_url ∷ a.panel_url ∷ [])
  pub value_plain : IsPlain a.value_string
  pub labels_plain : IsPlainMap a.labels
  pub annotations_plain : IsPlainMap a.annotations
  pub lines_plain : All IsPlain a.where_lines
  pub links_plain : All IsPlainLink a.action_links

pub record IsPlainMessage (m : MessageData) : Type 0 where
  pub texts_plain :
      All IsPlain (m.receiver ∷ m.status ∷ m.group_key ∷ m.external_url ∷ m.title ∷ m.message ∷ [])
  pub common_labels_plain : IsPlainMap m.common_labels
  pub common_annotations_plain : IsPlainMap m.common_annotations
  pub context_plain : IsPlain m.group_context
  pub alerts_plain : All IsPlainAlert m.alerts

link-IsPlain :
    (label url : Text) → IsPlain label → IsPlain url → All IsPlainLink (link_unless_empty label url)
link-IsPlain label url hl hu = if-holds (All IsPlainLink) (is_empty url) _ _ tt ((hl, hu), tt)

links-IsPlain :
    (annotations : List (Text × Text)) (generator dashboard panel silence : Text)
    → IsPlainMap annotations
    → All IsPlain (generator ∷ dashboard ∷ panel ∷ silence ∷ [])
    → All IsPlainLink (build_action_links annotations generator dashboard panel silence)
unfolding build_action_links
links-IsPlain annotations generator dashboard panel silence h (hg, (hd, (hp, (hs, _)))) =
    let runbook = trim_space-IsPlain _ (value_of-IsPlain annotations (codes "runbook_url") h) in
    All-append _ _ _ (link-IsPlain _ _ (literal-IsPlain (codes "📕 runbook") refl) runbook) (
      All-append _ _ _ (link-IsPlain _ _ (literal-IsPlain (codes "📊 graph") refl) hg) (
        All-append _ _ _ (link-IsPlain _ _ (literal-IsPlain (codes "📈 dashboard") refl) hd) (
          All-append _ _ _ (link-IsPlain _ _ (literal-IsPlain (codes "🔍 panel") refl) hp)
            (link-IsPlain _ _ (literal-IsPlain (codes "🔕 silence") refl) hs))))

module _ (display : Display) where
  build_alert-IsPlainAlert : (index : ℕ) (a : Alert) → IsPlainAlert (build_alert display index a)
  unfolding build_alert
  build_alert-IsPlainAlert index a =
      let labels = sanitize_string_map-IsPlainMap a.labels 128 1024 [] tt in
      let annotations = sanitize_string_map-IsPlainMap a.annotations 128 2048 [] tt in
      let plain : (v : Text) (n : ℕ) → IsPlain (sanitize v n) = sanitize-IsPlain in
      record {
        status_plain = plain _ _;
        name_plain = plain _ _;
        severity_plain = plain _ _;
        summary_plain = plain _ _;
        description_plain = plain _ _;
        urls_plain = (plain _ _, (plain _ _, (plain _ _, (plain _ _, tt))));
        value_plain = plain _ _;
        labels_plain = labels;
        annotations_plain = annotations;
        lines_plain = render_where_lines-IsPlain display.unicode _ labels;
        links_plain =
            links-IsPlain _ _ _ _ _ annotations
              (plain _ _, (plain _ _, (plain _ _, (plain _ _, tt))));
      }

  build_alerts-IsPlain :
      (index : ℕ) (alerts : List Alert) → All IsPlainAlert (build_alerts display index alerts)
  unfolding build_alerts
  build_alerts-IsPlain index [] = tt
  build_alerts-IsPlain index (a ∷ rest) =
      (build_alert-IsPlainAlert index a, build_alerts-IsPlain (suc index) rest)

-- In the data built for a message, no character is `<`, `>` or a quotation mark in a text taken from
-- the payload: the receiver, status, group key, external URL, title, message, group context, the common
-- labels and annotations with their keys, and, of every alert, its status, name, severity, summary,
-- description, URLs, value, labels and annotations with their keys, where lines and action links.
pub build_data-IsPlainMessage :
    (display : Display) (p : WebhookPayload) → IsPlainMessage (build_data display p)
unfolding build_data
build_data-IsPlainMessage display p =
    let labels = sanitize_string_map-IsPlainMap p.common_labels 128 1024 [] tt in
    let plain : (v : Text) (n : ℕ) → IsPlain (sanitize v n) = sanitize-IsPlain in
    record {
      texts_plain =
          (plain _ _, (plain _ _, (plain _ _, (plain _ _, (plain _ _, (plain _ _, tt))))));
      common_labels_plain = labels;
      common_annotations_plain = sanitize_string_map-IsPlainMap p.common_annotations 128 2048 [] tt;
      context_plain = render_group_context-IsPlain display.unicode _ labels;
      alerts_plain = build_alerts-IsPlain display 0 p.alerts;
    }
