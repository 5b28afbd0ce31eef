-- ===== src/Http/Router/Admin.antt =====
-- Requests without the configured credentials do not get through the router.
use webhook_telegram_proxy.Prelude.{ℕ, Bool, true, false, some, ◌≡◌, refl}
use webhook_telegram_proxy.Config.{basic_auth_enabled}
use webhook_telegram_proxy.Runtime.{Env, World}
use webhook_telegram_proxy.Http.{Request, Writer}
use webhook_telegram_proxy.Http.Writing.{IsUnwritten}
use webhook_telegram_proxy.Http.Guards.Access.{
  Distinguishes, IsAllowed, authorize_webhook_lem, matched,
}
use webhook_telegram_proxy.Http.Guards.{credentials_match, authorize_webhook}
use webhook_telegram_proxy.Http.Router.{
  Parts, Route, grafana, alertmanager, health_route, readyz, livez, no_route, metrics, route_of,
  serve, mux, router,
}
use webhook_telegram_proxy.Http.Router.Layers.{
  Denied, Denies, with_route-Denies, basic_auth-Denies, webhook-Denies, router-Denies,
}

-- the routes that need the webhook's access, and the credentials
abbrev pub IsWebhook : Route → Type 0
IsWebhook grafana = Unit
IsWebhook alertmanager = Unit
IsWebhook _ = ⊥

abbrev pub IsAdmin : Route → Type 0
IsAdmin health_route = Unit
IsAdmin readyz = Unit
IsAdmin metrics = Unit
IsAdmin _ = ⊥

webhook_serve-Denies :
    (env : Env) (parts : Parts) (calls : ℕ) (r : Request) (route : Route)
    → IsWebhook route
    → authorize_webhook parts.site env.cfg r ≡ false
    → Denies (serve env parts calls route) r
webhook_serve-Denies env parts calls r grafana h wrong =
    with_route-Denies "webhook_grafana" _ r (webhook-Denies env parts.site calls r wrong)
webhook_serve-Denies env parts calls r alertmanager h wrong =
    with_route-Denies "webhook_alertmanager" _ r (webhook-Denies env parts.site calls r wrong)
webhook_serve-Denies env parts calls r health_route h wrong = elim h [ ]
webhook_serve-Denies env parts calls r readyz h wrong = elim h [ ]
webhook_serve-Denies env parts calls r livez h wrong = elim h [ ]
webhook_serve-Denies env parts calls r metrics h wrong = elim h [ ]
webhook_serve-Denies env parts calls r no_route h wrong = elim h [ ]

admin_serve-Denies :
    (env : Env) (parts : Parts) (calls : ℕ) (r : Request) (route : Route)
    → IsAdmin route
    → basic_auth_enabled env.cfg ≡ true
    → credentials_match parts.site env.cfg r.basic_auth ≡ false
    → Denies (serve env parts calls route) r
admin_serve-Denies env parts calls r health_route h on wrong =
    with_route-Denies "health" _ r (basic_auth-Denies parts.site parts.quote env.cfg _ r on wrong)
admin_serve-Denies env parts calls r readyz h on wrong =
    with_route-Denies "readyz" _ r (basic_auth-Denies parts.site parts.quote env.cfg _ r on wrong)
admin_serve-Denies env parts calls r metrics h on wrong =
    with_route-Denies "metrics" _ r (basic_auth-Denies parts.site parts.quote env.cfg _ r on wrong)
admin_serve-Denies env parts calls r grafana h on wrong = elim h [ ]
admin_serve-Denies env parts calls r alertmanager h on wrong = elim h [ ]
admin_serve-Denies env parts calls r livez h on wrong = elim h [ ]
admin_serve-Denies env parts calls r no_route h on wrong = elim h [ ]

mux-Denies :
    (env : Env) (parts : Parts) (calls : ℕ) (r : Request)
    → Denies (serve env parts calls (route_of r.method r.path)) r
    → Denies (mux env parts calls) r
unfolding mux
mux-Denies env parts calls r d = d

refuted : (b : Bool) → (b ≡ true → ⊥) → b ≡ false
refuted true h = absurd (h refl)
refuted false h = refl

-- A request routed to either webhook that does not give the configured secret or credentials, while one of
-- them is configured, is answered with 401 by the router and changes neither the table nor what was
-- sent, where the digests of what is compared do not collide and no status was written before.
pub router-webhook-Denied :
    (env : Env) (parts : Parts) (calls : ℕ) (r : Request) (w : Writer) (world : World)
    → IsWebhook (route_of r.method r.path)
    → Distinguishes parts.site env.cfg r
    → (IsAllowed env.cfg r → ⊥)
    → IsUnwritten w
    → Denied (router env parts calls r w world) world
unfolding authorize_webhook
router-webhook-Denied env parts calls r w world webhook distinct denied fresh =
    let wrong =
      refuted _
        (λ allowed. denied ((authorize_webhook_lem parts.site env.cfg r distinct).0 allowed)) in
    router-Denies env parts calls r
      (λ id.
        mux-Denies env parts calls (record r { request_id = id })
          (webhook_serve-Denies env parts calls (record r { request_id = id })
            (route_of r.method r.path) webhook wrong))
      w world fresh

-- While basic authentication is enabled, a request routed to health, readiness or metrics without the
-- configured credentials is answered with 401 by the router and changes neither the table nor what was
-- sent, where the digests of what is compared do not collide and no status was written before.
pub router-admin-Denied :
    (env : Env) (parts : Parts) (calls : ℕ) (r : Request) (w : Writer) (world : World)
    → IsAdmin (route_of r.method r.path)
    → Distinguishes parts.site env.cfg r
    → basic_auth_enabled env.cfg ≡ true
    → (r.basic_auth ≡ some (env.cfg.basic_auth_username, env.cfg.basic_auth_password) → ⊥)
    → IsUnwritten w
    → Denied (router env parts calls r w world) world
router-admin-Denied env parts calls r w world admin distinct on denied fresh =
    let wrong =
      refuted _ (λ same. denied (matched parts.site env.cfg r r.basic_auth refl distinct same)) in
    router-Denies env parts calls r
      (λ id.
        mux-Denies env parts calls (record r { request_id = id })
          (admin_serve-Denies env parts calls (record r { request_id = id })
            (route_of r.method r.path) admin on wrong))
      w world fresh
