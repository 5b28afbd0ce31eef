-- ===== src/Startup.antt =====
-- `main` of cmd/server/main.go up to the point where the server is started, and `New` of
-- internal/store/sqlite.go. A step that fails ends the process with its message.
pub mod Ready
use webhook_telegram_proxy.Prelude.{
  ℕ, Bool, not, Option, none, some, List, [], ◌∷◌, ◌++◌, Text, codes, is_empty, if◌then◌else◌,
}
use webhook_telegram_proxy.Errors.{Error, wrap, Result, ok, err}
use webhook_telegram_proxy.Url.{Url}
use webhook_telegram_proxy.Config.{Config, Settings, uses_template_renderer}
use webhook_telegram_proxy.Config.Bounds.{natural_config}
use webhook_telegram_proxy.Config.Validate.{Libraries, alert_display_location}
use webhook_telegram_proxy.Config.Parse.{Flags, parse}
use webhook_telegram_proxy.Template.Durations.{Location}
use webhook_telegram_proxy.Store.Methods.{requeue_sending}
use webhook_telegram_proxy.Runtime.{Env, World, M, pure, tick}
use webhook_telegram_proxy.Telegram.{HttpClient}
use webhook_telegram_proxy.Telegram.Connect.{
  ClientOption, with_base_url, with_proxy_url, new_http_client,
}

-- What `main` is given by the system and the libraries. `env` is what the services run in, up to the
-- configuration.
pub record System : Type 0 where
  pub libs : Libraries
  pub lookup : Text → Option Text
  pub parse_flags : Flags → Result Flags
  pub metrics_error : Option Error
  pub make_directory : Text → Option Error
  pub open_database : Text → Option Error
  pub ping_database : Option Error
  pub apply_schema : Option Error
  pub load_template : Text → Option Error
  pub make_dialer : Url → Result (Unit {0})
  pub env : Env

-- What the services and the server are made of.
pub record Started : Type 0 where
  pub config : Config
  pub requeued : ℕ
  pub location : Option Location
  pub client : HttpClient

-- `if err != nil { …; os.Exit(1) }`
abbrev pub checked : {B : Type 0} → Text → Option Error → M B → M B
checked text none rest w = rest w
checked text (some e) rest w = (err (wrap text e), w)

abbrev pub checked_result : {A B : Type 0} → Text → Result A → (A → M B) → M B
checked_result text (ok a) rest w = rest a w
checked_result text (err e) rest w = (err (wrap text e), w)

abbrev pub first_error : Text → Option Error → Option Error → Option Error
first_error text (some e) rest = some (wrap text e)
first_error text none rest = rest

module _ (sys : System) where
  -- `store.New`
  unfoldable pub store_new : Text → Option Error
  store_new path = first_error (codes "create store directory") (sys.make_directory path) (
      first_error (codes "open sqlite") (sys.open_database path) (
        first_error (codes "ping sqlite") sys.ping_database
          (first_error (codes "apply sqlite schema") sys.apply_schema none)))

  abbrev pub template_error : Config → Option Error
  template_error cfg =
      if uses_template_renderer cfg then sys.load_template cfg.alert_template_path else none

  abbrev pub display_location : Config → Option Location
  display_location cfg =
      if uses_template_renderer cfg then some (alert_display_location sys.libs cfg) else none

  abbrev pub option_unless_empty : Text → ClientOption → List ClientOption
  option_unless_empty text option = if is_empty text then [] else option ∷ []

  abbrev pub telegram_options : Config → List ClientOption
  telegram_options cfg =
      option_unless_empty cfg.telegram_base_url (with_base_url cfg.telegram_base_url)
      ++ option_unless_empty cfg.telegram_proxy_url (with_proxy_url cfg.telegram_proxy_url)

  abbrev pub make_client : Config → Result HttpClient
  make_client cfg =
      new_http_client sys.libs.unicode sys.libs.urls sys.make_dialer cfg.telegram_bot_token
        (telegram_options cfg)

  -- after the requeue
  abbrev pub with_client : Config → ℕ → HttpClient → M Started
  with_client cfg count client =
      pure (record {
        config = cfg;
        requeued = count;
        location = display_location cfg;
        client = client;
      })

  abbrev pub after_template : Config → ℕ → M Started
  after_template cfg count =
      checked_result (codes "initialize telegram client") (make_client cfg) (with_client cfg count)

  abbrev pub connect : Config → ℕ → M Started
  connect cfg count =
      checked (codes "load alert template") (template_error cfg) (after_template cfg count)

  abbrev pub requeued : Config → Result ℕ × World → Result Started × World
  requeued cfg (result, w) =
      checked_result (codes "requeue sending deliveries after restart") result (connect cfg) w

  abbrev pub services : Config → Env
  services cfg = record sys.env { cfg = cfg }

  -- `RequeueSending(ctx, time.Now().UTC())`
  unfoldable pub requeue : Config → M Started
  requeue cfg w =
      requeued cfg (requeue_sending (services cfg) ((services cfg).now w.calls) (tick w))

  abbrev pub after_metrics : Settings → M Started
  after_metrics settings =
      checked (codes "initialize store") (store_new settings.store_path)
        (requeue (natural_config settings))

  abbrev pub start_with : Settings → M Started
  start_with settings =
      checked (codes "initialize metrics") sys.metrics_error (after_metrics settings)

  unfoldable pub start : M Started
  start =
      checked_result (codes "parse configuration") (parse sys.libs sys.lookup sys.parse_flags)
        start_with
