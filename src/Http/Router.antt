-- ===== src/Http/Router.antt =====
-- `NewRouter` of internal/http/router.go. What the `ServeMux` does with a request that matches no route,
-- and the handler of the metrics, are parameters.
pub mod Layers
pub mod Admin
use webhook_telegram_proxy.Prelude.{
  ℕ, Bool, ◌&&◌, ◌||◌, String, Text, codes, text_eq, if◌then◌else◌,
}
use webhook_telegram_proxy.Runtime.{Env, World}
use webhook_telegram_proxy.Http.{Request, Writer, Reply, Handler}
use webhook_telegram_proxy.Http.Guards.{Site}
use webhook_telegram_proxy.Http.Handlers.{webhook_receiver, health, liveness_handler}
use webhook_telegram_proxy.Http.Middleware.{
  recover_middleware, request_id_middleware, log_middleware, security_headers_middleware,
  basic_auth_middleware, with_route,
}

pub record Parts : Type 0 where
  pub site : Site
  pub quote : Text → Text
  pub unmatched : Handler
  pub metrics_handler : Handler

-- The patterns of the `ServeMux`, and no pattern.
pub data Route : Type 0 where
  grafana alertmanager health_route readyz livez metrics no_route : Route

-- A pattern with the method GET matches HEAD too.
abbrev pub is_get : Text → Bool
is_get method = text_eq method (codes "GET") || text_eq method (codes "HEAD")

abbrev pub get_route : Text → Route
get_route path =
    if text_eq path (codes "/health")
    then health_route
    else if text_eq path (codes "/readyz")
    then readyz
    else if text_eq path (codes "/livez")
    then livez
    else if text_eq path (codes "/metrics")
    then metrics
    else no_route

abbrev pub post_route : Text → Route
post_route path =
    if text_eq path (codes "/webhook/grafana")
    then grafana
    else if text_eq path (codes "/webhook/alertmanager")
    then alertmanager
    else no_route

unfoldable pub route_of : Text → Text → Route
route_of method path =
    if text_eq method (codes "POST")
    then post_route path
    else if is_get method
    then get_route path
    else no_route

module _ (env : Env) (parts : Parts) (calls : ℕ) where
  abbrev pub admin_auth : Handler → Handler
  admin_auth next = basic_auth_middleware parts.site parts.quote env.cfg next

  abbrev pub serve : Route → Handler
  serve grafana = with_route "webhook_grafana" (webhook_receiver env parts.site calls)
  serve alertmanager = with_route "webhook_alertmanager" (webhook_receiver env parts.site calls)
  serve health_route = with_route "health" (admin_auth (health env))
  serve readyz = with_route "readyz" (admin_auth (health env))
  serve livez = with_route "livez" liveness_handler
  serve metrics = with_route "metrics" (admin_auth parts.metrics_handler)
  serve no_route = parts.unmatched

  unfoldable pub mux : Handler
  mux r w world = serve (route_of r.method r.path) r w world

  unfoldable pub router : Handler
  router r w world =
      recover_middleware
        (request_id_middleware parts.site (log_middleware (security_headers_middleware mux))) r w
        world
