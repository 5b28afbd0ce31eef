-- ===== src/Service/Fingerprint.antt =====
-- `ComputeFingerprint` and `stableMapString` of internal/service/alert_service.go. Strings are ordered
-- by code points, as their UTF-8 bytes are.
pub mod Order
pub mod Ambiguity
use webhook_telegram_proxy.Prelude.{
  sort_texts, join, ℕ, Bool, true, false, List, [], ◌∷◌, ◌++◌, map, Text, codes, text_eq, ltb, ◌==◌,
  if◌then◌else◌, String, Option, none, some,
}
use webhook_telegram_proxy.Models.{value_of, StringMap, Alert, WebhookPayload}
use webhook_telegram_proxy.Runtime.{Env}

unfoldable pub stable_map_string : StringMap → Text
stable_map_string m =
    join (codes ",")
      (map (λ key. key ++ (codes "=" ++ value_of m key)) (sort_texts (map (λ e. e.0) m)))

module _ (env : Env) where
  unfoldable pub alert_string : Alert → Text
  alert_string a = join (codes "|") (
      a.status
      ∷ a.fingerprint
      ∷ env.format_time a.starts_at
      ∷ env.format_time a.ends_at
      ∷ a.generator_url
      ∷ stable_map_string a.labels
      ∷ stable_map_string a.annotations
      ∷ a.value_string
      ∷ [])

  -- what the builder holds before it is hashed; each field but the alerts is followed by a bar
  unfoldable pub canonical_string : WebhookPayload → Text
  canonical_string p =
      p.receiver
      ++ (codes "|"
          ++ (p.status
              ++ (codes "|"
                  ++ (p.group_key
                      ++ (codes "|"
                          ++ (p.external_url
                              ++ (codes "|"
                                  ++ (p.title
                                      ++ (codes "|"
                                          ++ (p.message
                                              ++ (codes "|"
                                                  ++ (stable_map_string p.group_labels
                                                      ++ (codes "|"
                                                          ++ (stable_map_string p.common_labels
                                                            ++ (codes "|"
                                                            ++ (stable_map_string
                                                            p.common_annotations
                                                            ++ (codes "|"
                                                            ++ join (codes "||") (
                                                            sort_texts (
                                                            map alert_string
                                                            p.alerts)))))))))))))))))))

  unfoldable pub compute_fingerprint : WebhookPayload → String
  compute_fingerprint p = env.sha256_hex (canonical_string p)
