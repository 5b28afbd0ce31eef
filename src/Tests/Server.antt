-- ===== src/Tests/Server.antt =====
-- Instances of what is proved of the HTTP server.
use mathlib.Core.Option.{some-injective}
use webhook_telegram_proxy.Prelude.{
  same_text_iff, same_text, sym, ap, subst, leb, ◌&&◌, if◌then◌else◌, leb, true, false, Option,
  none, some, [], ◌≡◌, ◌↔◌, refl, Text, codes, text_eq, String, inl, inr,
}
use webhook_telegram_proxy.Errors.{ok}
use webhook_telegram_proxy.Config.{Config, basic_auth_enabled}
use webhook_telegram_proxy.Runtime.{Env, World}
use webhook_telegram_proxy.Store.Record.{queued}
use webhook_telegram_proxy.Http.{Request, read, Writer, Handler, returned, panicked, returns}
use webhook_telegram_proxy.Http.Writing.{IsUnwritten, status_sent}
use webhook_telegram_proxy.Http.Guards.{Site, authorize_webhook}
use webhook_telegram_proxy.Http.Guards.Access.{Distinguishes, IsAllowed, authorize_webhook_lem}
use webhook_telegram_proxy.Http.Handlers.{health}
use webhook_telegram_proxy.Http.Handlers.Health.{IsHealthy, health_lem}
use webhook_telegram_proxy.Http.Middleware.{recover_middleware}
use webhook_telegram_proxy.Http.Middleware.Recovery.{recover_middleware_lem}
use webhook_telegram_proxy.Http.Router.{Parts, router, route_of}
use webhook_telegram_proxy.Http.Router.Layers.{Denied}
use webhook_telegram_proxy.Http.Router.Admin.{router-webhook-Denied, router-admin-Denied}
use webhook_telegram_proxy.Tests.{config, calm, row, world}

apart : (a b : String) → same_text a b ≡ false → a ≡ b → ⊥
apart a b h e = let same = (same_text_iff a b).1 e in cc

-- digests that tell the secrets apart from all else
abbrev digest : Text → String
digest t =
    if text_eq t (codes "secret")
    then "1"
    else if text_eq t (codes "admin")
    then "2"
    else if text_eq t (codes "guest")
    then "3"
    else "0"

abbrev site : Site
site = record {
  sha256_hex = digest;
  media_type = λ t. ok t;
  is_letter = λ c. leb b'a' c && leb c b'z';
  is_digit = λ c. leb b'0' c && leb c b'9';
  random_hex = λ _. none;
}

abbrev nothing : Handler
nothing r w world = returns w world

abbrev parts : Parts
parts = record { site = site; quote = λ t. t; unmatched = nothing; metrics_handler = nothing }

abbrev get : Text → Text → Text → Option (Text × Text) → Request
get method path secret credentials = record {
  method = method;
  path = path;
  webhook_secret = secret;
  content_type = codes "application/json";
  request_id_header = codes " id-1 ";
  basic_auth = credentials;
  request_id = [];
  read_body = λ _. read (codes "body");
}

abbrev writer : Writer
writer = record { recorders = []; connection = record { headers = []; head = none; body = [] } }

writer-IsUnwritten : IsUnwritten writer
writer-IsUnwritten = record { no_recorded = tt; no_head = refl }

-- a configuration with credentials
abbrev guarded : Config
guarded = record (config (codes "alertmanager")) {
  basic_auth_username = codes "admin";
  basic_auth_password = codes "secret";
}

abbrev env : Env
env = record calm { cfg = guarded }

abbrev before : World
before = world (row queued [] 0)

-- posted with the secret
abbrev posted : Request
posted = get (codes "POST") (codes "/webhook/grafana") (codes "secret") none

posted-Distinguishes : Distinguishes site guarded posted
posted-Distinguishes = record {
  secrets = λ _. refl;
  usernames = λ u p e. cc;
  passwords = λ u p e. cc;
}

authorize_webhook_lem_example :
    (authorize_webhook site guarded posted ≡ true) ↔ IsAllowed guarded posted
authorize_webhook_lem_example = authorize_webhook_lem site guarded posted posted-Distinguishes

-- posted with neither
abbrev forged : Request
forged = get (codes "POST") (codes "/webhook/alertmanager") (codes "guess") none

different : digest (codes "guess") ≡ digest (codes "secret") → codes "guess" ≡ codes "secret"
unfolding text_eq
different e = absurd (apart "0" "1" refl e)

forged-Distinguishes : Distinguishes site guarded forged
forged-Distinguishes = record {
  secrets = different;
  usernames = λ u p e. cc;
  passwords = λ u p e. cc;
}

forged-denied : IsAllowed guarded forged → ⊥
unfolding basic_auth_enabled text_eq
forged-denied (inl (given, same)) = cc
forged-denied (inr (inl (on, same))) = cc
forged-denied (inr (inr (none_given, off))) = cc

router-webhook-Denied_example : Denied (router env parts 3 forged writer before) before
unfolding route_of text_eq
router-webhook-Denied_example =
    router-webhook-Denied env parts 3 forged writer before tt forged-Distinguishes forged-denied
      writer-IsUnwritten

-- the readiness probe with the wrong password
abbrev probe : Request
probe = get (codes "GET") (codes "/readyz") [] (some (codes "admin", codes "guest"))

wrong_password :
    (u p : Text)
    → probe.basic_auth ≡ some (u, p)
    → digest p ≡ digest (codes "secret")
    → p ≡ codes "secret"
unfolding text_eq
wrong_password u p e =
    subst (λ q. digest q ≡ digest (codes "secret") → q ≡ codes "secret")
      (ap (λ c. c.1) (some-injective _ _ e)) (λ same. absurd (apart "3" "1" refl same))

right_name :
    (u p : Text)
    → probe.basic_auth ≡ some (u, p)
    → digest u ≡ digest (codes "admin")
    → u ≡ codes "admin"
right_name u p e same = sym (ap (λ c. c.0) (some-injective _ _ e))

empty_secret : digest [] ≡ digest (codes "secret") → [] ≡ codes "secret"
unfolding text_eq
empty_secret e = absurd (apart "0" "1" refl e)

probe-Distinguishes : Distinguishes site guarded probe
probe-Distinguishes = record {
  secrets = empty_secret;
  usernames = right_name;
  passwords = wrong_password;
}

enabled : basic_auth_enabled guarded ≡ true
unfolding basic_auth_enabled text_eq
enabled = refl

probe-denied : probe.basic_auth ≡ some (codes "admin", codes "secret") → ⊥
probe-denied e = cc

router-admin-Denied_example : Denied (router env parts 3 probe writer before) before
unfolding route_of text_eq
router-admin-Denied_example =
    router-admin-Denied env parts 3 probe writer before tt probe-Distinguishes enabled probe-denied
      writer-IsUnwritten

-- a handler that panics at once
abbrev panicking : Handler
panicking r w world = record { ending = panicked; writer = w; world = world }

recover_middleware_lem_example :
    ((recover_middleware panicking probe writer before).ending ≡ returned)
    × (status_sent (recover_middleware panicking probe writer before).writer ≡ some 500)
recover_middleware_lem_example =
    recover_middleware_lem panicking probe writer before refl
      (record { no_recorded = (refl, tt); no_head = refl })

health_lem_example :
    (status_sent (health env probe writer before).writer ≡ some 200) ↔ IsHealthy env before
health_lem_example = health_lem env probe writer before writer-IsUnwritten
