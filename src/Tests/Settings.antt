-- ===== src/Tests/Settings.antt =====
-- Instances of what is proved of the configuration and of the start.
use webhook_telegram_proxy.Prelude.{
  ◌^◌, times_wrapped, text_eq, trim_space, trim_left, trim_right, is_space, false, Option, none, [],
  ◌≡◌, refl, Text, codes, pos,
}
use webhook_telegram_proxy.Errors.{ok}
use webhook_telegram_proxy.Url.{Urls}
use webhook_telegram_proxy.Config.{Config, uses_template_renderer, basic_auth_enabled, Settings}
use webhook_telegram_proxy.Config.Validate.{
  problems_of, text_checks, number_checks, Libraries, validate,
}
use webhook_telegram_proxy.Config.Urls.{validate_telegram_base_url, validate_telegram_proxy_url}
use webhook_telegram_proxy.Config.Parse.{Flags, parse, with_retention}
use webhook_telegram_proxy.Config.Bounds.{IsSound, natural_config, integer_config}
use webhook_telegram_proxy.Config.Sound.{validate-IsSound}
use webhook_telegram_proxy.Template.Durations.{Location}
use webhook_telegram_proxy.Runtime.{World}
use webhook_telegram_proxy.Telegram.{HttpClient}
use webhook_telegram_proxy.Telegram.Redact.{token_replacers, build_sensitive_replacers}
use webhook_telegram_proxy.Telegram.Connect.{
  apply, new_transport, trim_slashes, new_http_client, normalize_base_url, parse_proxy_url,
}
use webhook_telegram_proxy.Store.Methods.{requeue_sending}
use webhook_telegram_proxy.Store.Queries.{update_where}
use webhook_telegram_proxy.Runtime.{tick, exec, observed, query, wrap_error, on_result}
use webhook_telegram_proxy.Startup.{
  services, requeue, store_new, make_client, System, Started, start,
}
use webhook_telegram_proxy.Startup.Ready.{IsReady, start-IsReady}
use webhook_telegram_proxy.Tests.{config, ascii, calm, row, world}
use webhook_telegram_proxy.Store.Record.{sending}

abbrev pub urls : Urls
urls = record {
  parse = λ text. ok (record {
    scheme = codes "https";
    host = codes "api.telegram.org";
    user = none;
    path = [];
    raw_query = [];
    fragment = [];
  });
  string = λ url. url.scheme;
  quote = λ text. text;
}

abbrev zulu : Location
zulu = record { zone = λ _. codes "UTC"; clock_text = λ _. codes "00:00" }

abbrev libs : Libraries
libs = record {
  unicode = ascii;
  urls = urls;
  load_location = λ _. ok zulu;
  local = zulu;
  parse_duration = λ _. none;
}

abbrev no_variable : Text → Option Text
no_variable key = none

abbrev given : Settings
given = integer_config (config (codes "alertmanager"))

abbrev flags : Flags
flags = record {
  settings = given;
  delivered_retention_hours = pos 168;
  dead_letter_retention_hours = pos 720;
}

given-accepted : validate libs given ≡ none
unfolding validate problems_of text_checks number_checks validate_telegram_base_url
    validate_telegram_proxy_url integer_config basic_auth_enabled trim_space trim_left trim_right
    is_space text_eq
given-accepted = refl

validate-IsSound_example :
    IsSound (natural_config given) × (integer_config (natural_config given) ≡ given)
validate-IsSound_example = validate-IsSound libs given given-accepted

flags-accepted : validate libs (with_retention flags) ≡ none
unfolding with_retention validate problems_of text_checks number_checks validate_telegram_base_url
    validate_telegram_proxy_url integer_config basic_auth_enabled trim_space trim_left trim_right
    is_space text_eq times_wrapped
flags-accepted = refl

flags-parsed : parse libs no_variable (λ _. ok flags) ≡ ok (with_retention flags)
unfolding parse
flags-parsed = rw flags-accepted refl

-- a system in which every step succeeds, on a store with a delivery that was being sent
abbrev system : System
system = record {
  libs = libs;
  lookup = no_variable;
  parse_flags = λ _. ok flags;
  metrics_error = none;
  make_directory = λ _. none;
  open_database = λ _. none;
  ping_database = none;
  apply_schema = none;
  load_template = λ _. none;
  make_dialer = λ _. ok tt;
  env = calm;
}

abbrev before : World
before = world (row sending [] 0)

abbrev pub client : HttpClient
client = record {
  base_url = codes "https";
  token = codes "token";
  user_agent = codes "webhook-telegram-proxy";
  max_body = pos (2 ^ 20);
  sensitive_replacers = token_replacers (codes "token");
}

client-made : make_client system (natural_config (with_retention flags)) ≡ ok client
unfolding new_http_client natural_config with_retention integer_config normalize_base_url
    parse_proxy_url apply trim_space trim_left trim_right is_space text_eq build_sensitive_replacers
    new_transport trim_slashes
client-made = refl

abbrev cfg : Config
cfg = natural_config (with_retention flags)

abbrev started : Started
started = record { config = cfg; requeued = 1; location = none; client = client }

abbrev after : World
after = (requeue_sending (services system cfg) 1000 (tick before)).1

requeue-run : requeue_sending (services system cfg) 1000 (tick before) ≡ (ok 1, after)
unfolding requeue_sending exec observed query wrap_error on_result update_where
requeue-run = refl

no-template : uses_template_renderer cfg ≡ false
unfolding uses_template_renderer natural_config with_retention integer_config text_eq
no-template = refl

start-run : start system before ≡ (ok started, after)
unfolding start requeue store_new uses_template_renderer text_eq natural_config with_retention
    integer_config
start-run = rw (flags-parsed, requeue-run, no-template, client-made) refl

start-IsReady_example : IsReady started after
start-IsReady_example = start-IsReady system before started after start-run
