-- ===== src/Startup/Ready.antt =====
-- What holds when the server starts.
use webhook_telegram_proxy.Prelude.{
  ℕ, Option, none, some, Text, codes, ◌≡◌, refl, sym, ap, subst, ◌∙◌,
}
use webhook_telegram_proxy.Errors.{Error, Result, ok, err, ok-injective}
use webhook_telegram_proxy.Config.{Config}
use webhook_telegram_proxy.Config.Bounds.{IsSound, natural_config}
use webhook_telegram_proxy.Config.Sound.{parse-IsSound}
use webhook_telegram_proxy.Config.Parse.{parse}
use webhook_telegram_proxy.Store.Claims.{NoneSending, requeue_sending-NoneSending}
use webhook_telegram_proxy.Store.Methods.{requeue_sending}
use webhook_telegram_proxy.Runtime.{World, M, tick}
use webhook_telegram_proxy.Telegram.Connect.Made.{new_http_client-IsMade}
use webhook_telegram_proxy.Startup.{
  services, telegram_options, template_error, after_template, with_client, display_location,
  after_metrics, store_new, System, Started, checked, checked_result, requeue, connect, start_with,
  make_client, start,
}

checked-ok :
    {B : Type 0} (text : Text) (o : Option Error) (rest : M B) (w : World) (b : B) (w' : World)
    → checked text o rest w ≡ (ok b, w')
    → rest w ≡ (ok b, w')
checked-ok text none rest w b w' h = h
checked-ok text (some e) rest w b w' h = cc

checked_result-ok :
    {A B : Type 0} (text : Text) (r : Result A) (rest : A → M B) (w : World) (b : B) (w' : World)
    → checked_result text r rest w ≡ (ok b, w')
    → (a : A) × ((r ≡ ok a) × (rest a w ≡ (ok b, w')))
checked_result-ok text (ok a) rest w b w' h = (a, (refl, h))
checked_result-ok text (err e) rest w b w' h = cc

-- What `main` has made ready.
pub record IsReady (s : Started) (w : World) : Type 0 where
  pub sound : IsSound s.config
  pub none_sending : NoneSending w.table
  pub same_token : s.client.token ≡ s.config.telegram_bot_token

connect-ok :
    (sys : System) (cfg : Config) (count : ℕ) (w : World) (s : Started) (w' : World)
    → connect sys cfg count w ≡ (ok s, w')
    → (w ≡ w') × ((s.config ≡ cfg) × (make_client sys cfg ≡ ok s.client))
connect-ok sys cfg count w s w' h =
    let later =
      checked-ok (codes "load alert template") (template_error sys cfg)
        (after_template sys cfg count) w s w' h in
    let (client, (made, done)) =
      checked_result-ok (codes "initialize telegram client") (make_client sys cfg)
        (with_client sys cfg count) w s w' later in
    let same : record {
      config = cfg;
      requeued = count;
      location = display_location sys cfg;
      client = client;
    }
        ≡ s =
      ok-injective (ap (λ p. p.0) done) in
    (
      ap (λ p. p.1) done,
      (sym (ap (λ t. Started.config t) same), made ∙ ap (λ t. ok (Started.client t)) same),
    )

requeue-ok :
    (sys : System) (cfg : Config) (w : World) (s : Started) (w' : World)
    → requeue sys cfg w ≡ (ok s, w')
    → NoneSending w'.table × ((s.config ≡ cfg) × (make_client sys cfg ≡ ok s.client))
unfolding requeue
requeue-ok sys cfg w s w' h =
    let run = requeue_sending (services sys cfg) ((services sys cfg).now w.calls) (tick w) in
    let (count, (counted, later)) =
      checked_result-ok (codes "requeue sending deliveries after restart") run.0 (connect sys cfg)
        run.1 s w' h in
    let (same_world, rest) = connect-ok sys cfg count run.1 s w' later in
    let freed =
      (requeue_sending-NoneSending (services sys cfg) ((services sys cfg).now w.calls) (tick w)
        count counted).1 in
    (subst (λ v. NoneSending (World.table v)) same_world freed, rest)

-- When `start` succeeds, the configuration that the services get is sound, no delivery is in the state
-- sending, and the Telegram client has the bot token of the configuration.
pub start-IsReady :
    (sys : System) (w : World) (s : Started) (w' : World) → start sys w ≡ (ok s, w') → IsReady s w'
unfolding start
start-IsReady sys w s w' h =
    let (settings, (parsed, begun)) =
      checked_result-ok (codes "parse configuration") (parse sys.libs sys.lookup sys.parse_flags)
        (start_with sys) w s w' h in
    let with_metrics =
      checked-ok (codes "initialize metrics") sys.metrics_error (after_metrics sys settings) w s w'
        begun in
    let with_store =
      checked-ok (codes "initialize store") (store_new sys settings.store_path)
        (requeue sys (natural_config settings)) w s w' with_metrics in
    let (requeued_all, (same, made)) = requeue-ok sys (natural_config settings) w s w' with_store in
    let is_made =
      new_http_client-IsMade sys.libs.unicode sys.libs.urls sys.make_dialer _
        (telegram_options sys (natural_config settings)) s.client made in
    record {
      sound =
          subst IsSound (sym same)
            (parse-IsSound sys.libs sys.lookup sys.parse_flags settings parsed);
      none_sending = requeued_all;
      same_token = is_made.same_token ∙ ap (λ (c : Config). c.telegram_bot_token) (sym same);
    }
