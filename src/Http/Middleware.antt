-- ===== src/Http/Middleware.antt =====
-- The middleware of internal/http/middleware.go. Logging is left out.
pub mod Recovery
use webhook_telegram_proxy.Prelude.{
  ℕ, ◌/◌, Bool, true, false, not, ◌&&◌, Option, none, some, List, [], ◌∷◌, ◌++◌, String, Text,
  codes, decimal, if◌then◌else◌,
}
use webhook_telegram_proxy.Config.{Config, basic_auth_enabled}
use webhook_telegram_proxy.Runtime.{World, emit, tick, http_request}
use webhook_telegram_proxy.Http.{
  Request, Recorder, Writer, Ending, returned, panicked, unfinished, Reply, Handler, returns,
  set_header, write_public_error,
}
use webhook_telegram_proxy.Http.Guards.{
  Site, credentials_match, sanitize_request_id, random_request_id,
}

abbrev pub fresh_recorder : Recorder
fresh_recorder = record { status_code = 200; wrote_header = false }

-- `&statusRecorder{ResponseWriter: w, statusCode: http.StatusOK}`
abbrev pub wrap_writer : Writer → Writer
wrap_writer w = record w { recorders = fresh_recorder ∷ w.recorders }

-- the recorder and the writer that it wraps
abbrev pub own_recorder : List Recorder → Recorder
own_recorder [] = fresh_recorder
own_recorder (r ∷ rs) = r

abbrev pub below : List Recorder → List Recorder
below [] = []
below (r ∷ rs) = rs

abbrev pub unwrap_writer : Writer → Writer
unwrap_writer w = record w { recorders = below w.recorders }

abbrev pub unwrapped : Reply → Reply
unwrapped reply = record reply { writer = unwrap_writer reply.writer }

-- `recoverMiddleware`
abbrev pub respond_to_panic : Request → Writer → Writer
respond_to_panic r w =
    if (own_recorder w.recorders).wrote_header
    then w
    else write_public_error r 500 (codes "internal server error") w

abbrev pub recovered : Request → Reply → Ending → Reply
recovered r reply panicked = record reply {
  ending = returned;
  writer = respond_to_panic r reply.writer;
}
recovered r reply other = reply

unfoldable pub recover_middleware : Handler → Handler
recover_middleware next r w world =
    let reply = next r (wrap_writer w) world in unwrapped (recovered r reply reply.ending)

-- `requestIDMiddleware`
abbrev pub id_or_random : Site → World → Option Text → Text
id_or_random site world none = random_request_id site world.calls
id_or_random site world (some id) = id

unfoldable pub request_id_middleware : Site → Handler → Handler
request_id_middleware site next r w world =
    let id = id_or_random site world (sanitize_request_id site r.request_id_header) in
    next (record r { request_id = id }) (set_header (codes "X-Request-Id") id w) (tick world)

-- `securityHeadersMiddleware`
abbrev pub security_headers : Writer → Writer
security_headers w =
    set_header (codes "Content-Security-Policy")
      (codes "default-src 'none'; frame-ancestors 'none'; base-uri 'none'; form-action 'none'")
      (set_header (codes "Referrer-Policy") (codes "no-referrer") (
        set_header (codes "X-Frame-Options") (codes "DENY") (
          set_header (codes "X-Content-Type-Options") (codes "nosniff") (
            set_header (codes "Pragma") (codes "no-cache")
              (set_header (codes "Cache-Control") (codes "no-store") w)))))

unfoldable pub security_headers_middleware : Handler → Handler
security_headers_middleware next r w world = next r (security_headers w) world

-- `basicAuthMiddleware`, where `quote` is `%q` of `fmt`
abbrev pub challenge : (Text → Text) → Config → Text
challenge quote cfg =
    codes "Basic realm=" ++ (quote cfg.basic_auth_realm ++ codes ", charset=\"UTF-8\"")

unfoldable pub basic_auth_middleware : Site → (Text → Text) → Config → Handler → Handler
basic_auth_middleware site quote cfg next r w world =
    if not (basic_auth_enabled cfg)
    then next r w world
    else if credentials_match site cfg r.basic_auth
    then next r w world
    else returns
        (write_public_error r 401 (codes "authentication required")
          (set_header (codes "WWW-Authenticate") (challenge quote cfg) w))
        world

-- `logMiddleware`
unfoldable pub log_middleware : Handler → Handler
log_middleware next r w world = unwrapped (next r (wrap_writer w) world)

-- `ObserveHTTPRequest` of internal/metrics/metrics.go
abbrev pub status_class : ℕ → Text
status_class status_code = decimal (status_code / 100) ++ codes "xx"

-- `withRoute`; a panic passes the observation by.
abbrev pub observed_route : String → Request → Reply → Ending → Reply
observed_route route r reply returned = record reply {
  world =
      emit
        (http_request route r.method
          (status_class (own_recorder reply.writer.recorders).status_code))
        reply.world;
}
observed_route route r reply other = reply

unfoldable pub with_route : String → Handler → Handler
with_route route next r w world =
    let reply = next r (wrap_writer w) world in
    unwrapped (observed_route route r reply reply.ending)
