-- ===== src/Template/Labels.antt =====
-- The labels of an alert as internal/template/renderer.go selects, orders and prints them. The loops
-- over a map visit its entries in the order of the list.
pub mod Plain
use webhook_telegram_proxy.Prelude.{
  Unicode, to_lower, equal_fold, has_prefix, Bool, true, false, not, ◌&&◌, Option, none, some, List,
  [], ◌∷◌, ◌++◌, map, Text, codes, text_eq, filter, any, if◌then◌else◌, trim_space, is_empty,
  text_leb, sort_texts, join,
}
use webhook_telegram_proxy.Models.{StringMap, value_of}
use webhook_telegram_proxy.Template.{ActionLink}
use webhook_telegram_proxy.Template.Sanitize.{set_key, normalize_environment}

abbrev pub Pair : Type 0
Pair = Text × Text

abbrev pub key_of : Pair → Text
key_of p = p.0

-- `mapToPairs` of a map, `pairsToMap`
unfoldable pub map_to_pairs : StringMap → List Pair
map_to_pairs m = map (λ key. (key, value_of m key)) (sort_texts (map key_of m))

abbrev pub set_pairs : List Pair → StringMap → StringMap
set_pairs [] m = m
set_pairs ((k, v) ∷ ps) m = set_pairs ps (set_key k v m)

unfoldable pub pairs_to_map : List Pair → StringMap
pairs_to_map ps = set_pairs ps []

abbrev pub pair_text : Pair → Text
pair_text p = p.0 ++ (codes "=" ++ p.1)

unfoldable pub join_pairs : StringMap → Text
join_pairs m = join (codes ", ") (map pair_text (map_to_pairs m))

-- `formatValues`; a value is kept as its text under `%v`
unfoldable pub format_values : StringMap → Text
format_values values =
    join (codes ", ")
      (map (λ key. pair_text (key, value_of values key)) (sort_texts (map key_of values)))

abbrev pub noisy_labels : List Text
noisy_labels =
    codes "alertname"
    ∷ codes "severity"
    ∷ codes "status"
    ∷ codes "grafana_folder"
    ∷ codes "folder"
    ∷ codes "rule_uid"
    ∷ codes "dashboard_uid"
    ∷ codes "panel_id"
    ∷ codes "__alert_rule_uid__"
    ∷ codes "pod_template_hash"
    ∷ codes "__name__"
    ∷ codes "prometheus"
    ∷ []

abbrev pub exporter_pod_prefixes : List Text
exporter_pod_prefixes =
    codes "kube-prometheus-stack-kube-state-metrics-"
    ∷ codes "kube-prometheus-stack-prometheus-node-exporter-"
    ∷ codes "kube-prometheus-stack-operator-"
    ∷ codes "kube-state-metrics-"
    ∷ codes "node-exporter-"
    ∷ []

abbrev pub group_context_priority : List Text
group_context_priority =
    codes "namespace"
    ∷ codes "cluster"
    ∷ codes "service"
    ∷ codes "team"
    ∷ codes "environment"
    ∷ codes "env"
    ∷ []

abbrev pub where_label_priority : List Text
where_label_priority =
    codes "deployment"
    ∷ codes "statefulset"
    ∷ codes "daemonset"
    ∷ codes "job_name"
    ∷ codes "namespace"
    ∷ codes "pod"
    ∷ codes "container"
    ∷ codes "instance"
    ∷ codes "node"
    ∷ codes "mount"
    ∷ codes "device"
    ∷ []

unfoldable pub is_exporter_pod : Text → Bool
is_exporter_pod name = any (λ prefix. has_prefix name prefix) exporter_pod_prefixes

-- pairs by their keys, ascending
unfoldable pub insert_pair : Pair → List Pair → List Pair
insert_pair p [] = p ∷ []
insert_pair p (q ∷ l) =
    let later = q ∷ insert_pair p l in if text_leb (key_of p) (key_of q) then p ∷ q ∷ l else later

unfoldable pub sort_pairs : List Pair → List Pair
unfolding insert_pair
sort_pairs [] = []
sort_pairs (p ∷ l) = insert_pair p (sort_pairs l)

module _ (u : Unicode) where
  abbrev pub is_kept : Pair → Bool
  is_kept p =
      not (any (λ noisy. text_eq (to_lower u p.0) noisy) noisy_labels)
      && not (equal_fold u p.0 (codes "pod") && is_exporter_pod p.1)

  unfoldable pub filter_labels : StringMap → StringMap
  filter_labels values = filter is_kept (pairs_to_map (map_to_pairs values))

  -- the inner loop, up to its `break`
  unfoldable pub find_fold : Text → StringMap → Option Pair
  find_fold key [] = none
  find_fold key (p ∷ source) =
      let rest = find_fold key source in if equal_fold u p.0 key then some p else rest

  abbrev pub add_selected : Option Pair → StringMap → StringMap
  add_selected none selected = selected
  add_selected (some p) selected = set_key p.0 p.1 selected

  unfoldable pub select_from : StringMap → List Text → StringMap → StringMap
  select_from source [] selected = selected
  select_from source (key ∷ preferred) selected =
      select_from source preferred (add_selected (find_fold key source) selected)

  unfoldable pub select_only_preferred_labels : StringMap → List Text → StringMap
  select_only_preferred_labels source preferred = select_from source preferred []

  abbrev pub or_all : StringMap → StringMap → StringMap
  or_all [] all_labels = all_labels
  or_all (p ∷ m) all_labels = p ∷ m

  unfoldable pub render_group_context : StringMap → Text
  render_group_context labels = join_pairs (
      or_all (select_only_preferred_labels (filter_labels labels) group_context_priority)
        (filter_labels labels))

  abbrev pub found_pairs : Option Pair → List Pair
  found_pairs none = []
  found_pairs (some p) = p ∷ []

  -- the pairs that the loop over `preferred` appends
  unfoldable pub preferred_pairs : StringMap → List Text → List Pair
  preferred_pairs source [] = []
  preferred_pairs source (key ∷ preferred) =
      found_pairs (find_fold key source) ++ preferred_pairs source preferred

  abbrev pub is_seen : List Pair → Pair → Bool
  is_seen pairs p = any (λ q. text_eq (to_lower u q.0) (to_lower u p.0)) pairs

  unfoldable pub ordered_label_pairs : StringMap → List Text → List Pair
  ordered_label_pairs source preferred =
      let pairs = preferred_pairs source preferred in
      pairs ++ sort_pairs (filter (λ p. not (is_seen pairs p)) source)

  abbrev pub where_line : Pair → Text
  where_line p = codes "- " ++ (p.0 ++ (codes ": " ++ p.1))

  unfoldable pub render_where_lines : StringMap → List Text
  render_where_lines labels =
      map where_line (ordered_label_pairs (filter_labels labels) where_label_priority)

  abbrev pub first_environment : List Text → Text
  first_environment [] = []
  first_environment (c ∷ cs) =
      let rest = first_environment cs in
      let normalized = normalize_environment u c in if is_empty normalized then rest else normalized

  unfoldable pub environment_name : StringMap → Text
  environment_name values =
      let source = pairs_to_map (map_to_pairs values) in
      first_environment (
        value_of source (codes "env")
        ∷ value_of source (codes "environment")
        ∷ value_of source (codes "cluster")
        ∷ [])

-- `pickFirst`
abbrev pub pick_from : StringMap → List Text → Text
pick_from source [] = []
pick_from source (key ∷ keys) =
    let rest = pick_from source keys in
    let value = trim_space (value_of source key) in if is_empty value then rest else value

unfoldable pub pick_first : StringMap → List Text → Text
pick_first values keys = pick_from (pairs_to_map (map_to_pairs values)) keys

abbrev pub link_unless_empty : Text → Text → List ActionLink
link_unless_empty label url = if is_empty url then [] else record { label = label; url = url } ∷ []

unfoldable pub build_action_links : StringMap → Text → Text → Text → Text → List ActionLink
build_action_links annotations generator_url dashboard_url panel_url silence_url =
    link_unless_empty (codes "📕 runbook") (trim_space (value_of annotations (codes "runbook_url")))
    ++ (link_unless_empty (codes "📊 graph") generator_url
        ++ (link_unless_empty (codes "📈 dashboard") dashboard_url
            ++ (link_unless_empty (codes "🔍 panel") panel_url
                ++ link_unless_empty (codes "🔕 silence") silence_url)))
